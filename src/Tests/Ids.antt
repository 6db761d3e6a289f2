-- ===== src/Tests/Ids.antt =====
-- An id of sixteen bytes, and the epochs of a server that is stopped in its third.
use eth2_validator.Server.Loops.{elapsed, shut_down, watch_duties, watch_duties_lem}
use eth2_validator.Base.{ℕ, ◌+◌, ◌%◌, ◌^◌, ◌≤◌, true, arith, ◌≡◌, refl, [], ◌∷◌, String, some, ok}
use Prim.Native.String.{len}
use eth2_validator.Array.{get_or, length, get_elem?}
use eth2_validator.Duty.{Bytes}
use eth2_validator.Client.{short_id}
use eth2_validator.Uuid.{hex, between, generate, short}
use eth2_validator.Uuid.Shape.{generate_correct}

abbrev buf : Bytes
buf = 0 ∷ 17 ∷ 34 ∷ 51 ∷ 68 ∷ 85 ∷ 102 ∷ 119 ∷ 136 ∷ 153 ∷ 170 ∷ 187 ∷ 204 ∷ 221 ∷ 238 ∷ 255 ∷ []

generated : generate (some buf) ≡ ok "00112233-4455-6677-8899-aabbccddeeff"
unfolding generate hex get_or
generated = refl

generate_correct_example :
    (id : String) × (generate (some buf) ≡ ok id)
    × (len id ≡ 36)
    × (short (some buf) ≡ ok (hex (between 0 4 buf)))
    × (short_id id ≡ ok (hex (between 0 4 buf)))
generate_correct_example = generate_correct buf refl

-- Two waits in time, and then the end.
watch_duties_lem_example :
    (length (watch_duties true elapsed 7 (elapsed ∷ elapsed ∷ shut_down ∷ [])) ≡ 3)
    × ((i : ℕ)
        → i ≤ 2
        → get_elem? (watch_duties true elapsed 7 (elapsed ∷ elapsed ∷ shut_down ∷ [])) i
          ≡ some ((7 + i) % 2 ^ 64))
watch_duties_lem_example =
    watch_duties_lem elapsed 7 (elapsed ∷ elapsed ∷ shut_down ∷ []) (omega arith)
