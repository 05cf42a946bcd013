-- ===== src/Filesystem/Batch/Numbers.antt =====
-- Two numbers are never shown alike in an event id (internal/adapters/filesystem/observer.go).
use agent_action_visualizer.Filesystem.Events.{digits, zeros_before, filesystem_id}
use agent_action_visualizer.Prelude.{
  ℕ, zero, suc, ◌+◌, ◌-◌, ◌*◌, ◌/◌, ◌%◌, ◌^◌, ◌<◌, ◌≡◌, refl, sym, ap, ◌∙◌, [], ◌∷◌, ◌++◌, arith,
  ltb, length, Text, bytes, if-elim,
}

-- The number that digits show, after those that were read.
abbrev pub read_number : ℕ → Text → ℕ
read_number n [] = n
read_number n (c ∷ s) = read_number (10 * n + (c - 48)) s

abbrev power_of_ten : ℕ → ℕ
power_of_ten zero = 1
power_of_ten (suc n) = 10 * power_of_ten n

last_digit : (n : ℕ) → 10 * (n / 10) + ((48 + n % 10) - 48) ≡ n
last_digit n = omega arith

read_number-digits :
    (fuel n : ℕ) (shown : Text)
    → n < power_of_ten fuel
    → read_number 0 (digits fuel n shown) ≡ read_number n shown
unfolding digits
read_number-digits zero n shown small = ap (λ k. read_number k shown) (omega (arith, small))
read_number-digits (suc fuel) n shown small =
    if-elim (λ s. read_number 0 s ≡ read_number n shown) (ltb n 10) _ _
      (λ single. ap (λ k. read_number k shown) (omega arith))
      (λ more.
        read_number-digits fuel (n / 10) ((48 + n % 10) ∷ shown) (omega (arith, small))
        ∙ ap (λ k. read_number k shown) (last_digit n))

read_number-zeros_before : (n : ℕ) (s : Text) → read_number 0 (zeros_before n s) ≡ read_number 0 s
read_number-zeros_before zero s = refl
read_number-zeros_before (suc n) s = read_number-zeros_before n s

append_cancel : (s t u : Text) → s ++ t ≡ s ++ u → t ≡ u
append_cancel [] t u h = h
append_cancel (c ∷ s) t u h = append_cancel s t u (ground (arith, h))

pub filesystem_id_inj :
    (session : Text) (m n : ℕ)
    → m < 2 ^ 64
    → n < 2 ^ 64
    → filesystem_id session m ≡ filesystem_id session n
    → m ≡ n
unfolding filesystem_id
filesystem_id_inj session m n hm hn same =
    let shown = λ (k : ℕ). zeros_before (8 - length (digits 20 k [])) (digits 20 k []) in
    let alike : shown m ≡ shown n = append_cancel (bytes ":filesystem:") (shown m) (shown n) (
      append_cancel session (bytes ":filesystem:" ++ shown m) (bytes ":filesystem:" ++ shown n)
        same) in
    let value = λ (k : ℕ) (small : k < 2 ^ 64).
      read_number-zeros_before (8 - length (digits 20 k [])) (digits 20 k [])
      ∙ read_number-digits 20 k [] (omega (arith, small)) in
    sym (value m hm) ∙ ap (read_number 0) alike ∙ value n hn
