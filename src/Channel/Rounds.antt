-- ===== src/Channel/Rounds.antt =====
-- A round over `work_list_`, and the tasks of the timer.
use coin_data.Prelude.{
  ℕ, zero, suc, ◌<◌, ◌^◌, ◌≡◌, refl, true, false, List, [], ◌∷◌, arith, ◌==◌, if◌then◌else◌, inl,
  inr, length, ok, fault, Fault, Bool-cases,
}
use coin_data.Channel.{Peers, work, TaskItem, exec}
use coin_data.Channel.Connections.{count}

-- A communicator of `ns` that lives is online.
pub data AllOnline (p : Peers) : List ℕ → Type 0 where
  none_left : AllOnline p []
  next :
      {n : ℕ} {ns : List ℕ}
      → (p.alive n ≡ true → p.online n ≡ true)
      → AllOnline p ns
      → AllOnline p (n ∷ ns)

-- Those of a list that live.
unfoldable pub living : Peers → List ℕ → List ℕ
living p [] = []
living p (n ∷ ns) = if p.alive n then n ∷ living p ns else living p ns

-- With every living communicator of `work_list_` online, one pass ends the loop: it drops those
-- that are gone and calls `spin_` of the others, in order.
pub work-AllOnline :
    (p : Peers) (ns : List ℕ)
    → AllOnline p ns
    → work (length ns) p ns ≡ ok (living p ns, living p ns)
unfolding work living
work-AllOnline p [] a = refl
work-AllOnline p (n ∷ ns) (AllOnline.next h a) = ground (arith, h, work-AllOnline p ns a)

-- With a communicator in `work_list_` that lives and is not online, no number of rounds ends the
-- loop, as long as nobody changes that.
pub work-stuck :
    (fuel : ℕ) (p : Peers) (ns : List ℕ) (n : ℕ)
    → 0 < count n ns
    → p.alive n ≡ true
    → p.online n ≡ false
    → work fuel p ns ≡ fault Fault.out_of_fuel
unfolding work count
work-stuck fuel p [] n h a o = absurd (omega arith)
work-stuck zero p (m ∷ ms) n h a o = refl
work-stuck (suc fuel) p (m ∷ ms) n h a o = elim (Bool-cases (m == n)) [
  | inl same ↦ ground (arith, a, o, work-stuck fuel p (m ∷ ms) n h a o)
  | inr other ↦
      let later : 0 < count n ms = ground (arith, other) in
      ground (arith, work-stuck fuel p ms n later a o, work-stuck fuel p (m ∷ ms) n h a o)
]

-- Right after a run of the timer at a time, a second run at that time runs nothing and changes
-- nothing.
pub exec-exec :
    (time : ℕ) (ts : List TaskItem)
    → time < 2 ^ 64
    → exec time (exec time ts).0 ≡ ((exec time ts).0, [])
unfolding exec
exec-exec time [] fits = refl
exec-exec time (t ∷ ts) fits = ground (arith, exec-exec time ts fits)
