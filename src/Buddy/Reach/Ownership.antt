-- ===== src/Buddy/Reach/Ownership.antt =====
-- The allocator together with the blocks that are in use: well-formed lists, no two blocks that
-- overlap, and a fixed amount of memory.
use mathlib.Core.Path.{subst}
use coin_data.Prelude.{
  ℕ, zero, suc, ◌+◌, ◌^◌, ◌≤◌, ◌<◌, ◌≡◌, ◌≢◌, ap, ◌∙◌, false, List, [], ◌∷◌, some, arith, get_elem?,
}
use coin_data.Buddy.Store.{Block, Store}
use coin_data.Buddy.Lists.Linked.{Lists}
use coin_data.Buddy.Free.Release.{Intact}
use coin_data.Buddy.Free.Pages.{free_pages}
use coin_data.Buddy.Reach.Extent.{extent, Disjoint, Disjoint-sym, Clear, Apart}

-- The level and the address of each block in use.
abbrev pub Blocks : Type 0
Blocks = List (ℕ × ℕ)

-- The block `u` of level `k` is in use, below the address `hi`.
pub record InUse (hi : ℕ) (s : Store) (k u : ℕ) : Type 0 where
  pub used : (s.mem u).is_free ≡ false
  pub intact : Intact (s.mem u)
  pub level : (s.mem u).level ≡ k
  pub nonnull : u ≢ 0
  pub few : k < 32
  pub below : u + extent k ≤ hi

abbrev pub AllOf : (ℕ → ℕ → Type 0) → Blocks → Type 0
AllOf P [] = Unit
AllOf P ((k, u) ∷ us) = P k u × AllOf P us

-- The block `u` of level `k` overlaps with none of the blocks.
abbrev pub Out : ℕ → ℕ → Blocks → Type 0
Out k u us = AllOf (Disjoint k u) us

-- The blocks are in use, and overlap neither with the lists nor with each other.
abbrev pub AllUsed : ℕ → Store → (ℕ → List ℕ) → Blocks → Type 0
AllUsed hi s ls [] = Unit
AllUsed hi s ls ((k, u) ∷ us) = InUse hi s k u × Clear k u ls × Out k u us × AllUsed hi s ls us

abbrev pub used_pages : Blocks → ℕ
used_pages [] = 0
used_pages ((k, u) ∷ us) = 2 ^ k + used_pages us

-- The memory has `total` pages and ends at `hi`.
pub record Owned (hi total : ℕ) (s : Store) (ls : ℕ → List ℕ) (us : Blocks) : Type 0 where
  pub lists : Lists s ls
  pub apart : Apart ls
  pub below : (k : ℕ) → Clear k hi ls
  pub used : AllUsed hi s ls us
  pub pages : free_pages 32 ls + used_pages us ≡ total

abbrev pub remove : Blocks → ℕ → Blocks
remove [] i = []
remove (x ∷ us) zero = us
remove (x ∷ us) (suc i) = x ∷ remove us i

-- Facts on every block in use, from those on one.
pub AllUsed-map :
    (hi : ℕ) (s : Store) (ls : ℕ → List ℕ) (P : ℕ → ℕ → Type 0)
    → ((k u : ℕ) → InUse hi s k u → Clear k u ls → P k u)
    → (us : Blocks) → AllUsed hi s ls us
    → AllOf P us
AllUsed-map hi s ls P f [] all = tt
AllUsed-map hi s ls P f ((k, u) ∷ us) (use_, clear, out, rest) =
    (f k u use_ clear, AllUsed-map hi s ls P f us rest)

-- The blocks are still in use if their headers are kept and the lists stay clear of them.
pub AllUsed-frame :
    (hi : ℕ) (s s' : Store) (ls ls' : ℕ → List ℕ) (P : ℕ → ℕ → Type 0)
    → ((k u : ℕ) → InUse hi s k u → Clear k u ls → P k u → (s'.mem u ≡ s.mem u) × Clear k u ls')
    → (us : Blocks) → AllUsed hi s ls us
    → AllOf P us
    → AllUsed hi s' ls' us
AllUsed-frame hi s s' ls ls' P keep [] all facts = tt
AllUsed-frame hi s s' ls ls' P keep ((k, u) ∷ us) (use_, clear, out, rest) (fact, facts) =
    let (same, clear') = keep k u use_ clear fact in
    (
      record {
        used = ap Block.is_free same ∙ use_.used;
        intact = ap Block.crc same ∙ use_.intact;
        level = ap Block.level same ∙ use_.level;
        nonnull = use_.nonnull;
        few = use_.few;
        below = use_.below;
      },
      clear',
      out,
      AllUsed-frame hi s s' ls ls' P keep us rest facts,
    )

AllOf-remove : (P : ℕ → ℕ → Type 0) (us : Blocks) (i : ℕ) → AllOf P us → AllOf P (remove us i)
AllOf-remove P [] i all = tt
AllOf-remove P ((k, u) ∷ us) zero (fact, facts) = facts
AllOf-remove P ((k, u) ∷ us) (suc i) (fact, facts) = (fact, AllOf-remove P us i facts)

AllOf-get :
    (P : ℕ → ℕ → Type 0) (us : Blocks) (i l h : ℕ)
    → get_elem? us i ≡ some (l, h)
    → AllOf P us
    → P l h
AllOf-get P [] i l h e all = cc
AllOf-get P ((k, u) ∷ us) zero l h e (fact, facts) =
    let el : k ≡ l = cc in let eh : u ≡ h = cc in subst (λ a. P a h) el (subst (P k) eh fact)
AllOf-get P ((k, u) ∷ us) (suc i) l h e (fact, facts) = AllOf-get P us i l h e facts

-- One of the blocks, and the others without it.
pub record Picked (hi : ℕ) (s : Store) (ls : ℕ → List ℕ) (us us' : Blocks) (l h : ℕ) : Type 0 where
  pub used : InUse hi s l h
  pub outside : Clear l h ls
  pub others : AllUsed hi s ls us'
  pub apart : Out l h us'
  pub pages : used_pages us ≡ used_pages us' + 2 ^ l

pub remove-Picked :
    (hi : ℕ) (s : Store) (ls : ℕ → List ℕ) (us : Blocks) (i l h : ℕ)
    → get_elem? us i ≡ some (l, h)
    → AllUsed hi s ls us
    → Picked hi s ls us (remove us i) l h
remove-Picked hi s ls [] i l h e all = cc
remove-Picked hi s ls ((k, u) ∷ us) zero l h e (use_, clear, out, rest) =
    let el : k ≡ l = cc in
    let eh : u ≡ h = cc in
    let first : Picked hi s ls ((k, u) ∷ us) us k u = record {
      used = use_;
      outside = clear;
      others = rest;
      apart = out;
      pages = omega arith;
    } in
    subst (λ a. Picked hi s ls ((k, u) ∷ us) us a h) el
      (subst (Picked hi s ls ((k, u) ∷ us) us k) eh first)
remove-Picked hi s ls ((k, u) ∷ us) (suc i) l h e (use_, clear, out, rest) =
    let picked = remove-Picked hi s ls us i l h e rest in
    record {
      used = picked.used;
      outside = picked.outside;
      others = (use_, clear, AllOf-remove (Disjoint k u) us i out, picked.others);
      apart = (Disjoint-sym k u l h (AllOf-get (Disjoint k u) us i l h e out), picked.apart);
      pages = omega (arith, picked.pages);
    }
