-- ===== src/Procurement/Caps.antt =====
-- The cut of an arrival that is larger than what remains.
use spare_part.Base.{false, true, Bool, zero, suc}
use spare_part.Procurement.Lines.{scaled, Arrival, capped, arrived}
use spare_part.Ledger.Service.{quantize, round_half_even}
use spare_part.Base.Int.{sub_ℕ, ltb_ℤ, pos, ℤ, ◌≤ℤ◌, ◌*ℤ◌, ◌+ℤ◌}
use native.Mathlib.Nat.{div-add-mod, lt_of_mul-lt-mul_left}
use spare_part.Base.{
  sym, subst, inr, inl, ◌==◌, ltb, Bool-cases, ◌%◌, ◌/◌, suc, ◌+◌, ◌<◌, ◌*◌, ℕ, ◌≡◌, refl, arith,
  ◌≤◌, if_branches, ◌||◌, ◌&&◌,
}

rounded : (n d q r : ℕ) → d * q + r ≡ n → d ≤ 2 * r → 2 * (d * suc q) ≤ 2 * n + d
rounded n d q r e h = ground (arith, e, h)

-- To the nearest is at most half a unit up.
round_bound : (n d : ℕ) → 2 * (d * round_half_even n d) ≤ 2 * n + d
round_bound n d =
    let q = n / d in
    let r = n % d in
    elim (Bool-cases (ltb (2 * r) d || (2 * r == d && q % 2 == 0))) [
      | inl below ↦ rw below (ground (arith, div-add-mod n d))
      | inr above ↦ rw above (rounded n d q r (div-add-mod n d) (ground (arith, above)))
    ]

cut_bound :
    (g b r x y : ℕ)
    → 0 < g + b
    → 2 * ((g + b) * x) ≤ 2 * (g * r) + (g + b)
    → 2 * ((g + b) * y) ≤ 2 * (b * r) + (g + b)
    → x + y ≤ suc r
cut_bound g b r x y h e f =
    let k : x + y < suc (suc r) = lt_of_mul-lt-mul_left (g + b) (ground (arith, h, e, f)) in
    ground (arith, k)

sub_zero : (n : ℕ) → sub_ℕ n 0 ≡ pos n
sub_zero n = ground arith

times_pos : (q r : ℕ) → pos q *ℤ pos r ≡ pos (q * r)
unfolding ◌*ℤ◌
times_pos q r =
    subst (λ n. sub_ℕ (q * r + 0 * 0) n ≡ pos (q * r)) (ground arith)
      (subst (λ n. sub_ℕ n 0 ≡ pos (q * r)) (ground arith) (sub_zero (q * r)))

round_zero : (d : ℕ) → round_half_even 0 d ≡ 0
round_zero zero = refl
round_zero (suc d) = ground arith

scaled_pos : (q r t : ℕ) → scaled (pos q) (pos r) (pos t) ≡ pos (round_half_even (q * r) t)
scaled_pos q r t =
    subst (λ x. quantize x t ≡ pos (round_half_even (q * r) t)) (sym (times_pos q r))
      (subst (λ n. sub_ℕ (round_half_even (q * r) t) n ≡ pos (round_half_even (q * r) t))
        (sym (round_zero t)) (sub_zero (round_half_even (q * r) t)))

plus_pos : (x y : ℕ) → pos x +ℤ pos y ≡ pos (x + y)
unfolding ◌+ℤ◌
plus_pos x y = sub_zero (x + y)

cut_total :
    (g b r : ℕ)
    → scaled (pos g) (pos r) (pos g +ℤ pos b) +ℤ scaled (pos b) (pos r) (pos g +ℤ pos b)
      ≡ pos (round_half_even (g * r) (g + b) + round_half_even (b * r) (g + b))
cut_total g b r =
    subst
      (λ t.
        scaled (pos g) (pos r) t +ℤ scaled (pos b) (pos r) t
        ≡ pos (round_half_even (g * r) (g + b) + round_half_even (b * r) (g + b)))
      (sym (plus_pos g b))
      (rw (scaled_pos g r (g + b), scaled_pos b r (g + b))
        (plus_pos (round_half_even (g * r) (g + b)) (round_half_even (b * r) (g + b))))

over_bound :
    (g b r : ℕ)
    → 0 < r
    → (ltb_ℤ (pos r) (pos (g + b)) && ltb_ℤ (pos 0) (pos r)) ≡ true
    → round_half_even (g * r) (g + b) + round_half_even (b * r) (g + b) ≤ suc r
over_bound g b r h over =
    cut_bound g b r (round_half_even (g * r) (g + b)) (round_half_even (b * r) (g + b))
      (ground (arith, h, over)) (round_bound (g * r) (g + b)) (round_bound (b * r) (g + b))

fits_bound :
    (s r : ℕ)
    → 0 < r
    → (ltb_ℤ (pos r) (pos s) && ltb_ℤ (pos 0) (pos r)) ≡ false
    → pos s ≤ℤ pos (suc r)
fits_bound s r h fits = ground (arith, h, fits)

-- Let units arrive for a line of which something remains, none of the quantities being negative. The units that are
-- counted for it are at most one thousandth more than what remains.
pub capped_bound :
    (g b r : ℕ) (rejected price : ℤ)
    → 0 < r
    → arrived (
        capped
          (record { good = pos g; damaged = pos b; rejected = rejected; actual_price = price })
          (pos r))
      ≤ℤ pos (suc r)
capped_bound g b r rejected price h =
    let a : Arrival = record {
      good = pos g;
      damaged = pos b;
      rejected = rejected;
      actual_price = price;
    } in
    let test : ℤ → Bool = λ z. ltb_ℤ (pos r) z && ltb_ℤ (pos 0) (pos r) in
    if_branches (λ (x : Arrival). arrived x ≤ℤ pos (suc r))
      (ltb_ℤ (pos r) (arrived a) && ltb_ℤ (pos 0) (pos r))
      (record a {
        good = scaled a.good (pos r) (arrived a);
        damaged = scaled a.damaged (pos r) (arrived a);
      })
      a
      (λ over.
        subst (λ z. z ≤ℤ pos (suc r)) (sym (cut_total g b r))
          (ground (arith, over_bound g b r h (subst (λ z. test z ≡ true) (plus_pos g b) over))))
      (λ fits.
        subst (λ z. z ≤ℤ pos (suc r)) (sym (plus_pos g b))
          (fits_bound (g + b) r h (subst (λ z. test z ≡ false) (plus_pos g b) fits)))
