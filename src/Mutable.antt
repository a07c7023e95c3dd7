-- ===== src/Mutable.antt =====
-- The communicators of src/coin-data/communicator.hpp and communicator.cpp that a service can point at
-- another target. Names are numbers, 0 for an empty one, and so are callbacks, 0 for null. A connection
-- is the name that it was opened with, and what `LocalChannal` opens is put on record.
pub mod Service
pub mod Redirect
pub mod Tests
use coin_data.Prelude.{
  ℕ, Bool, true, false, List, [], ◌∷◌, ◌++◌, Option, none, some, ◌==◌, lookup, insert_or_assign,
  nat_key, if◌then◌else◌,
}

-- The four classes
pub data Kind : Type 0 where
  writer : Kind
  reader : Kind
  publisher : Kind
  subscriber : Kind

-- `MutableWriter`, `MutableReader`, `MutablePublisher` and `MutableSubscriber`; the last two fields are
-- those of the subscriber.
pub record MutableCommunicator : Type 0 where
  pub kind : Kind
  pub target : Option ℕ
  pub sub_name : ℕ
  pub sub_callback : ℕ

-- A connection that was opened: its class, its name, and the callback of a subscriber
pub record Opened : Type 0 where
  pub kind : Kind
  pub name : ℕ
  pub callback : ℕ

-- `target_name`
unfoldable pub target_name : MutableCommunicator → ℕ
target_name c = elim (c.target) [ none ↦ 0 | some name ↦ name ]

-- `redirect` of the writer, the reader and the publisher
unfoldable pub redirect_plain : ℕ → MutableCommunicator → MutableCommunicator × List Opened
redirect_plain name c =
    (record c { target = some name }, record { kind = c.kind; name = name; callback = 0 } ∷ [])

-- `redirect` of the subscriber, which opens nothing without a callback
unfoldable pub redirect_subscriber : ℕ → MutableCommunicator → MutableCommunicator × List Opened
redirect_subscriber name c = if c.sub_callback == 0 then (record c { sub_name = name }, []) else (
  record c { sub_name = name; target = some name },
  record { kind = Kind.subscriber; name = name; callback = c.sub_callback } ∷ [],
)

unfoldable pub redirect : ℕ → MutableCommunicator → MutableCommunicator × List Opened
unfolding redirect_plain redirect_subscriber
redirect name c = elim (c.kind) [
  | writer ↦ redirect_plain name c
  | reader ↦ redirect_plain name c
  | publisher ↦ redirect_plain name c
  | subscriber ↦ redirect_subscriber name c
]

-- `disconnect` of each of the classes
unfoldable pub disconnect : MutableCommunicator → MutableCommunicator
disconnect c = record c { target = none }

-- `set_sub_callback`
unfoldable pub set_sub_callback : ℕ → MutableCommunicator → MutableCommunicator × List Opened
set_sub_callback cb c = if c.sub_name == 0 then (record c { sub_callback = cb }, []) else (
  record c { sub_callback = cb; target = some c.sub_name },
  record { kind = Kind.subscriber; name = c.sub_name; callback = cb } ∷ [],
)

-- The constructors: `create` makes a communicator that is not connected.
unfoldable pub make_communicator : Kind → ℕ → MutableCommunicator
make_communicator kind cb = record { kind = kind; target = none; sub_name = 0; sub_callback = cb }

-- `write` and `publish` go to the connection, if there is one.
unfoldable pub send : ℕ → MutableCommunicator → List (ℕ × ℕ)
send value c = elim (c.target) [ none ↦ [] | some name ↦ (name, value) ∷ [] ]

-- `read` of the reader, given what a connection reads; 0 is a null pointer.
unfoldable pub read_value : (ℕ → ℕ) → MutableCommunicator → ℕ
read_value reads c = elim (c.target) [ none ↦ 0 | some name ↦ reads name ]
