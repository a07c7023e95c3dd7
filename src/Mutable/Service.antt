-- ===== src/Mutable/Service.antt =====
-- The registry of the communicators that can be redirected, and the service that redirects them.
use coin_data.Prelude.{
  ℕ, Bool, true, false, List, ◌++◌, none, some, ◌==◌, lookup, insert_or_assign, nat_key,
  if◌then◌else◌,
}
use coin_data.Mutable.{Kind, MutableCommunicator, Opened, redirect, disconnect, make_communicator}

-- `mutable_communicator()`, the targets that the environment gives, and what was opened so far
pub record Registry : Type 0 where
  pub mutable_communicator : List (ℕ × MutableCommunicator)
  pub communicators : List (ℕ × ℕ)
  pub opened : List Opened

-- `register_mutable_communicator_`
unfoldable pub register_mutable_communicator : ℕ → MutableCommunicator → Registry → Registry
register_mutable_communicator id c r = elim (lookup id r.communicators) [
  | none ↦ record r { mutable_communicator = insert_or_assign id c r.mutable_communicator }
  | some name ↦
      let (c', opened) = redirect name c in
      record r {
        mutable_communicator = insert_or_assign id c' r.mutable_communicator;
        opened = r.opened ++ opened;
      }
]

-- `create` of the four classes
unfoldable pub create_communicator : Kind → ℕ → ℕ → Registry → Registry
unfolding register_mutable_communicator make_communicator
create_communicator kind id cb r = register_mutable_communicator id (make_communicator kind cb) r

-- The message of an answer
pub data Message : Type 0 where
  not_exist : ℕ → Message
  disconnected : Message
  redirected : ℕ → Message

pub record MutableServerAck : Type 0 where
  pub is_ok : Bool
  pub msg : Message

-- `mutable_communicator_service_callback_`
unfoldable pub mutable_communicator_service_callback :
    ℕ → ℕ → Registry → MutableServerAck × Registry
unfolding redirect disconnect
mutable_communicator_service_callback id target r = elim (lookup id r.mutable_communicator) [
  | none ↦ (record { is_ok = false; msg = Message.not_exist id }, r)
  | some c ↦
      if target == 0
      then (
        record { is_ok = true; msg = Message.disconnected },
        record r {
          mutable_communicator = insert_or_assign id (disconnect c) r.mutable_communicator;
        },
      )
      else (let (c', opened) = redirect target c in
          (
            record { is_ok = true; msg = Message.redirected target },
            record r {
              mutable_communicator = insert_or_assign id c' r.mutable_communicator;
              opened = r.opened ++ opened;
            },
          ))
]
