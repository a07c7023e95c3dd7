-- ===== src/Objects/Cleared.antt =====
-- What `clear_shm_obj_remove_map_` releases.
use native.Mathlib.Decide.{ℕ_discrete}
use coin_data.Prelude.{
  ℕ, ◌≡◌, ◌≢◌, refl, List, [], ◌∷◌, none, some, ok, arith, ◌==◌, if◌then◌else◌, lookup, erase,
  nat_key, lookup-erase, Bool-cases, inl, inr,
}
use coin_data.Objects.{ObjectInfo, Shared, read_info}
use coin_data.Objects.Create.{release_object, destroy_info}
use coin_data.Objects.Destroy.{release_entry, clear_entries}
use coin_data.Objects.Entries.{
  IsMine, AreMine, is_unused, kept_entries, is_dropped, AreMine-erase, kept_entries-erase,
  is_dropped-erase,
}

-- Every info has an object that lives and that no other info has.
pub record IsSound (sh : Shared) : Type 0 where
  pub live :
      (p : ℕ) (i : ObjectInfo)
      → lookup p sh.infos ≡ some i
      → lookup i.obj_ptr sh.objects ≡ some i.type_name
  pub own :
      (p q : ℕ) (i j : ObjectInfo)
      → lookup p sh.infos ≡ some i
      → lookup q sh.infos ≡ some j
      → i.obj_ptr ≡ j.obj_ptr
      → p ≡ q

-- After an entry was released
released : ℕ → ObjectInfo → Shared → Shared
released p i sh = record sh { infos = erase p sh.infos; objects = erase i.obj_ptr sh.objects }

released-IsSound :
    (p : ℕ) (i : ObjectInfo) (sh : Shared)
    → IsSound sh
    → lookup p sh.infos ≡ some i
    → IsSound (released p i sh)
unfolding released
released-IsSound p i sh h e = record {
  live = λ q j g. ground (
    arith,
    g,
    e,
    lookup-erase p q sh.infos,
    lookup-erase i.obj_ptr j.obj_ptr sh.objects,
    h.live q j,
    h.own p q i j e,
  );
  own = λ q r j k g f o.
      ground (arith, g, f, o, lookup-erase p q sh.infos, lookup-erase p r sh.infos, h.own q r j k);
}

-- The clearing of a list of entries, and what it leaves
pub record Clears (pid : ℕ) (entries : List (ℕ × ℕ)) (sh sh' : Shared) : Type 0 where
  pub result : clear_entries pid entries sh ≡ ok (kept_entries entries sh.infos, sh')
  pub sound : IsSound sh'
  pub segments : sh'.segments ≡ sh.segments
  pub infos :
      (q : ℕ)
      → lookup q sh'.infos ≡ (if is_dropped q entries sh.infos then none else lookup q sh.infos)
  pub objects :
      (q : ℕ) (j : ObjectInfo)
      → lookup q sh.infos ≡ some j
      → lookup j.obj_ptr sh'.objects
        ≡ (if is_dropped q entries sh.infos then none else some j.type_name)
  pub gone : (o : ℕ) → lookup o sh.objects ≡ none → lookup o sh'.objects ≡ none

release_entry-released :
    (pid p : ℕ) (i : ObjectInfo) (sh : Shared)
    → IsSound sh
    → lookup p sh.infos ≡ some i
    → i.created_pid ≡ pid
    → i.release_func_addr ≢ 0
    → release_entry pid p i sh ≡ ok (released p i sh)
unfolding release_entry release_object destroy_info released
release_entry-released pid p i sh h e c r = ground (arith, h.live p i e)

-- x
pub clear_entries-Clears :
    (pid : ℕ) (entries : List (ℕ × ℕ)) (sh : Shared)
    → IsSound sh
    → AreMine pid entries sh.infos
    → (sh' : Shared) × Clears pid entries sh sh'
unfolding clear_entries kept_entries is_dropped is_unused AreMine IsMine read_info released
clear_entries-Clears pid [] sh h t = (
  sh,
  record {
    result = refl;
    sound = h;
    segments = refl;
    infos = λ q. refl;
    objects = λ q j e. h.live q j e;
    gone = λ o e. e;
  },
)
clear_entries-Clears pid ((key, p) ∷ entries) sh h ((i, e, c, r), a, t) =
    elim (Bool-cases (i.ref_cnt == 0)) [
      | inr used ↦
          let (sh', n) = clear_entries-Clears pid entries sh h t in
          (
            sh',
            record {
              result = ground (arith, e, used, n.result);
              sound = n.sound;
              segments = n.segments;
              infos = λ q. ground (arith, e, used, n.infos q);
              objects = λ q j g. ground (arith, e, used, g, n.objects q j g);
              gone = n.gone;
            },
          )
      | inl unused ↦
          let sh1 = released p i sh in
          let (sh', n) =
            clear_entries-Clears pid entries sh1 (released-IsSound p i sh h e)
              (AreMine-erase pid p entries sh.infos a t) in
          (
            sh',
            record {
              result = ground (
                arith,
                e,
                unused,
                release_entry-released pid p i sh h e c r,
                n.result,
                kept_entries-erase p entries sh.infos a,
              );
              sound = n.sound;
              segments = n.segments;
              infos = λ q. ground (
                arith,
                e,
                unused,
                n.infos q,
                is_dropped-erase p q entries sh.infos a,
                lookup-erase p q sh.infos,
              );
              objects = λ q j g. elim (ℕ_discrete p q) [
                | yes same ↦ ground (
                  arith,
                  e,
                  g,
                  same,
                  unused,
                  n.gone j.obj_ptr,
                  lookup-erase i.obj_ptr j.obj_ptr sh.objects,
                )
                | no other ↦ ground (
                  arith,
                  other,
                  g,
                  n.objects q j,
                  is_dropped-erase p q entries sh.infos a,
                  lookup-erase p q sh.infos,
                )
              ];
              gone = λ o f. n.gone o (ground (arith, f, lookup-erase i.obj_ptr o sh.objects));
            },
          )
    ]
