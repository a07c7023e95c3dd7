-- ===== src/Mutable/Redirect.antt =====
-- Where a communicator is connected to.
use coin_data.Prelude.{
  ℕ, ◌≡◌, ◌≢◌, true, false, Option, none, some, arith, ◌==◌, lookup, nat_key, if◌then◌else◌,
  lookup-insert_or_assign,
}
use coin_data.Mutable.{
  Kind, MutableCommunicator, redirect_plain, redirect_subscriber, redirect, disconnect,
  set_sub_callback,
}
use coin_data.Mutable.Service.{Registry, mutable_communicator_service_callback}

-- Where the communicator with an id is connected to
unfoldable pub connected : ℕ → Registry → Option ℕ
connected id r = elim (lookup id r.mutable_communicator) [ none ↦ none | some c ↦ c.target ]

-- A communicator that a redirection connects: none but a subscriber without a callback
unfoldable pub CanRedirect : MutableCommunicator → Type 0
CanRedirect c = c.kind ≡ Kind.subscriber → c.sub_callback ≢ 0

redirect-target :
    (name : ℕ) (c : MutableCommunicator) → CanRedirect c → (redirect name c).0.target ≡ some name
unfolding redirect redirect_plain redirect_subscriber CanRedirect
redirect-target name c h = ground (arith, h)

-- A request to the service for a communicator that it has, other than a subscriber without a
-- callback, is answered with true, and connects the communicator to the target, or disconnects it
-- if the target is empty; no other one changes. A request for one that it does not have is answered
-- with false and changes nothing.
pub service-connected :
    (id target : ℕ) (r : Registry) (c : MutableCommunicator)
    → lookup id r.mutable_communicator ≡ some c
    → CanRedirect c
    → ((mutable_communicator_service_callback id target r).0.is_ok ≡ true)
      × (connected id (mutable_communicator_service_callback id target r).1
          ≡ (if target == 0 then none else some target))
      × ((other : ℕ)
          → other ≢ id
          → lookup other (mutable_communicator_service_callback id target r).1.mutable_communicator
            ≡ lookup other r.mutable_communicator)
      × ((missing : ℕ)
          → lookup missing r.mutable_communicator ≡ none
          → ((mutable_communicator_service_callback missing target r).0.is_ok ≡ false)
            × ((mutable_communicator_service_callback missing target r).1 ≡ r))
unfolding mutable_communicator_service_callback connected disconnect
service-connected id target r c e h =
    let c' = (redirect target c).0 in
    (
      ground (arith, e),
      ground (
        arith,
        e,
        redirect-target target c h,
        lookup-insert_or_assign id id c' r.mutable_communicator,
        lookup-insert_or_assign id id (disconnect c) r.mutable_communicator,
      ),
      λ other ne. ground (
        arith,
        e,
        lookup-insert_or_assign id other c' r.mutable_communicator,
        lookup-insert_or_assign id other (disconnect c) r.mutable_communicator,
      ),
      λ missing f. (ground (arith, f), ground (arith, f)),
    )

-- x
pub redirect-set_sub_callback :
    (name cb : ℕ) (c : MutableCommunicator)
    → c.kind ≡ Kind.subscriber
    → c.sub_callback ≡ 0
    → c.sub_name ≡ 0
    → name ≢ 0
    → cb ≢ 0
    → ((redirect name (set_sub_callback cb c).0).0 ≡ (set_sub_callback cb (redirect name c).0).0)
      × ((redirect name (set_sub_callback cb c).0).1 ≡ (set_sub_callback cb (redirect name c).0).1)
      × ((redirect name (set_sub_callback cb c).0).0.target ≡ some name)
unfolding redirect redirect_subscriber redirect_plain set_sub_callback
redirect-set_sub_callback name cb c k a b n m =
    (ground (arith, k, a, b, n, m), ground (arith, k, a, b, n, m), ground (arith, k, a, b, n, m))

-- x
pub set_sub_callback-disconnect :
    (name cb : ℕ) (c : MutableCommunicator)
    → c.kind ≡ Kind.subscriber
    → c.sub_callback ≢ 0
    → name ≢ 0
    → (disconnect (redirect name c).0).target ≡ none
      × ((set_sub_callback cb (disconnect (redirect name c).0)).0.target ≡ some name)
unfolding redirect redirect_subscriber redirect_plain set_sub_callback disconnect
set_sub_callback-disconnect name cb c k a n = (ground (arith, k, a), ground (arith, k, a, n))
