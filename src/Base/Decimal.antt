-- ===== src/Base/Decimal.antt =====
-- Python's `str(n)` and `int(s)` on numbers that are not negative.
use Prim.Native.Char.{code}
use Prim.Native.String.append
use Prim.Native.String.{◌++◌ as concat}
use text.Mathlib.TextLemmas.{append-ne-nil_of_right_ne-nil}
use task_queue.Base.{
  ℕ, zero, suc, ◌+◌, ◌-◌, ◌*◌, ◌/◌, ◌%◌, ◌<◌, String, ◌≡◌, refl, ◌≢◌, ◌&&◌, Option, none, some,
  arith, ltb, leb, if◌then◌else◌, ◌≤◌, ◌∙◌, ap, inl, inr, Bool-cases,
}

digit : ℕ → String
digit zero = "0"
digit (suc zero) = "1"
digit (suc (suc zero)) = "2"
digit (suc (suc (suc zero))) = "3"
digit (suc (suc (suc (suc zero)))) = "4"
digit (suc (suc (suc (suc (suc zero))))) = "5"
digit (suc (suc (suc (suc (suc (suc zero)))))) = "6"
digit (suc (suc (suc (suc (suc (suc (suc zero))))))) = "7"
digit (suc (suc (suc (suc (suc (suc (suc (suc zero)))))))) = "8"
digit _ = "9"

-- Highest digit first; the fuel is a bound on the number.
digits : ℕ → ℕ → String
digits zero n = digit n
digits (suc f) n =
    let high = digits f (n / 10) in if ltb n 10 then digit n else concat high (digit (n % 10))

-- `str(n)`
unfoldable pub to_text : ℕ → String
unfolding digits digit
to_text n = digits n n

scan : String → ℕ → Option ℕ
scan String.[] acc = some acc
scan (String.◌∷◌ c s) acc =
    let rest = scan s (acc * 10 + (code c - b'0')) in
    if leb b'0' (code c) && leb (code c) b'9' then rest else none

-- `int(s)` for a text of plain digits; `none` is the `ValueError`.
unfoldable pub of_text : String → Option ℕ
unfolding scan
of_text String.[] = none
of_text (String.◌∷◌ c s) = scan (String.◌∷◌ c s) 0

of_text-12 : of_text (to_text 12) ≡ some 12
unfolding of_text to_text
of_text-12 = refl

scan_then : Option ℕ → String → Option ℕ
scan_then none t = none
scan_then (some m) t = scan t m

scan-concat : (s t : String) (acc : ℕ) → scan (concat s t) acc ≡ scan_then (scan s acc) t
unfolding scan scan_then
scan-concat String.[] t acc = rw (append.nil t)
scan-concat (String.◌∷◌ c s) t acc =
    rw (append.cons c s t) (ground (arith, scan-concat s t (acc * 10 + (code c - b'0'))))

scan-digit : (d acc : ℕ) → d < 10 → scan (digit d) acc ≡ some (acc * 10 + d)
unfolding scan digit
scan-digit zero acc h = ground arith
scan-digit (suc zero) acc h = ground arith
scan-digit (suc (suc zero)) acc h = ground arith
scan-digit (suc (suc (suc zero))) acc h = ground arith
scan-digit (suc (suc (suc (suc zero)))) acc h = ground arith
scan-digit (suc (suc (suc (suc (suc zero))))) acc h = ground arith
scan-digit (suc (suc (suc (suc (suc (suc zero)))))) acc h = ground arith
scan-digit (suc (suc (suc (suc (suc (suc (suc zero))))))) acc h = ground arith
scan-digit (suc (suc (suc (suc (suc (suc (suc (suc zero)))))))) acc h = ground arith
scan-digit (suc (suc (suc (suc (suc (suc (suc (suc (suc zero))))))))) acc h = ground arith
scan-digit (suc (suc (suc (suc (suc (suc (suc (suc (suc (suc n)))))))))) acc h =
    absurd (omega arith)

scan-digits : (f n : ℕ) → n ≤ f → scan (digits f n) 0 ≡ some n
unfolding digits scan_then
scan-digits zero n h = scan-digit n 0 (omega arith) ∙ ap some (omega arith)
scan-digits (suc f) n h = elim (Bool-cases (ltb n 10)) [
  | inl small ↦ rw small (scan-digit n 0 (ground arith) ∙ ap some (omega arith))
  | inr large ↦
      rw
        (
          large,
          scan-concat (digits f (n / 10)) (digit (n % 10)) 0,
          scan-digits f (n / 10) (ground arith),
        )
        (scan-digit (n % 10) (n / 10) (omega arith) ∙ ap some (omega arith))
]

digit-ne-nil : (n : ℕ) → digit n ≢ String.[]
unfolding digit
digit-ne-nil zero e = cc
digit-ne-nil (suc zero) e = cc
digit-ne-nil (suc (suc zero)) e = cc
digit-ne-nil (suc (suc (suc zero))) e = cc
digit-ne-nil (suc (suc (suc (suc zero)))) e = cc
digit-ne-nil (suc (suc (suc (suc (suc zero))))) e = cc
digit-ne-nil (suc (suc (suc (suc (suc (suc zero)))))) e = cc
digit-ne-nil (suc (suc (suc (suc (suc (suc (suc zero))))))) e = cc
digit-ne-nil (suc (suc (suc (suc (suc (suc (suc (suc zero)))))))) e = cc
digit-ne-nil _ e = cc

digits-ne-nil : (f n : ℕ) → digits f n ≢ String.[]
unfolding digits
digits-ne-nil zero n = digit-ne-nil n
digits-ne-nil (suc f) n = elim (Bool-cases (ltb n 10)) [
  | inl small ↦ rw small (digit-ne-nil n)
  | inr large ↦ rw large (append-ne-nil_of_right_ne-nil (digits f (n / 10)) (digit-ne-nil (n % 10)))
]

of_text-scan : (s : String) → s ≢ String.[] → of_text s ≡ scan s 0
unfolding of_text
of_text-scan String.[] h = absurd (h refl)
of_text-scan (String.◌∷◌ c s) _ = refl

-- What `str` prints `int` reads back.
pub of_text-to_text : (n : ℕ) → of_text (to_text n) ≡ some n
unfolding to_text
of_text-to_text n = of_text-scan _ (digits-ne-nil n n) ∙ scan-digits n n (omega arith)
