-- ===== src/Mutable/Tests.antt =====
-- Communicators on small inputs: a publisher with id 1, and a subscriber.
use coin_data.Prelude.{◌≡◌, refl, [], ◌∷◌, none, some, arith, nat_key}
use coin_data.Mutable.{
  MutableCommunicator, redirect, disconnect, set_sub_callback, publisher, subscriber,
}
use coin_data.Mutable.Service.{Registry}
use coin_data.Mutable.Redirect.{CanRedirect, redirect-set_sub_callback, set_sub_callback-disconnect}

abbrev pub_1 : MutableCommunicator
pub_1 = record { kind = publisher; target = none; sub_name = 0; sub_callback = 0 }

abbrev sub_2 : MutableCommunicator
sub_2 = record { kind = subscriber; target = none; sub_name = 0; sub_callback = 0 }

abbrev sub_3 : MutableCommunicator
sub_3 = record { kind = subscriber; target = none; sub_name = 0; sub_callback = 6 }

abbrev registry : Registry
registry = record { mutable_communicator = (1, pub_1) ∷ []; communicators = []; opened = [] }

can_1 : CanRedirect pub_1
unfolding CanRedirect
can_1 k = absurd (ground (arith, k))

redirect-set_sub_callback_example :
    ((redirect 9 (set_sub_callback 6 sub_2).0).0 ≡ (set_sub_callback 6 (redirect 9 sub_2).0).0)
    × ((redirect 9 (set_sub_callback 6 sub_2).0).1 ≡ (set_sub_callback 6 (redirect 9 sub_2).0).1)
    × ((redirect 9 (set_sub_callback 6 sub_2).0).0.target ≡ some 9)
redirect-set_sub_callback_example =
    redirect-set_sub_callback 9 6 sub_2 refl refl refl (λ e. absurd (omega (arith, e)))
      (λ e. absurd (omega (arith, e)))

set_sub_callback-disconnect_example :
    (disconnect (redirect 9 sub_3).0).target ≡ none
    × ((set_sub_callback 7 (disconnect (redirect 9 sub_3).0)).0.target ≡ some 9)
set_sub_callback-disconnect_example =
    set_sub_callback-disconnect 9 7 sub_3 refl (λ e. absurd (omega (arith, e)))
      (λ e. absurd (omega (arith, e)))
