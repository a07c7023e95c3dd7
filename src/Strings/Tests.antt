-- ===== src/Strings/Tests.antt =====
-- Strings on small inputs; 32 is a space.
use coin_data.Prelude.{◌≡◌, refl, [], ◌∷◌, ok}
use coin_data.Strings.{split_from, split, cut, skip, is_member, starts_with, remove_leading_chars}

split_example : split (97 ∷ 32 ∷ 32 ∷ 98 ∷ []) (32 ∷ []) ≡ ok ((97 ∷ []) ∷ (98 ∷ []) ∷ [])
unfolding split split_from cut skip is_member starts_with
split_example = refl

blank_stays : remove_leading_chars (32 ∷ 32 ∷ []) (32 ∷ []) ≡ 32 ∷ 32 ∷ []
unfolding remove_leading_chars skip is_member
blank_stays = refl
