-- ===== src/Webserver/Client/Print/Numbers.antt =====
-- The numbers that `sprintf` of webserver/request.c writes are those that `sscanf` of
-- webserver/client.c reads.
use Prim.Native.Nat.pow
use ece344lab.Common.{
  ℕ, zero, suc, ◌+◌, ◌-◌, ◌*◌, ◌/◌, ◌%◌, ◌^◌, ◌≤◌, ◌<◌, ◌≡◌, refl, ap, ◌∙◌, inl, inr, true, false,
  List, [], ◌∷◌, ◌++◌, some, ltb, ◌==◌, Bool-cases, arith, length,
}
use ece344lab.Common.Int.{pos}
use ece344lab.Common.Text.{until_zero}
use ece344lab.Webserver.Rio.Lines.{length-append}
use ece344lab.Webserver.Text.{digits, decimal, skip_space}
use ece344lab.Webserver.Client.Print.{isdigit, scan_digits, scan_natural, scan_number}

abbrev pub AllDigits : List ℕ → Type 0
AllDigits [] = Unit
AllDigits (c ∷ l) = (isdigit c ≡ true) × AllDigits l

append-AllDigits : (l m : List ℕ) → AllDigits l → AllDigits m → AllDigits (l ++ m)
append-AllDigits [] m a b = b
append-AllDigits (c ∷ l) m (first, a) b = (first, append-AllDigits l m a b)

digits-AllDigits : (places n : ℕ) → AllDigits (digits places n)
unfolding digits
digits-AllDigits zero n = tt
digits-AllDigits (suc p) n = elim (Bool-cases (ltb n 10)) [
  | inl one ↦ rw one (ground (arith, one), tt)
  | inr more ↦ rw more (
      append-AllDigits (digits p (n / 10)) ((48 + n % 10) ∷ []) (digits-AllDigits p (n / 10))
        (ground arith, tt))
]

length-digits : (places n : ℕ) → length (digits places n) ≤ places
unfolding digits
length-digits zero n = omega arith
length-digits (suc p) n = elim (Bool-cases (ltb n 10)) [
  | inl one ↦ rw one (omega arith)
  | inr more ↦ rw more (
      omega
        (arith, length-digits p (n / 10), length-append (digits p (n / 10)) ((48 + n % 10) ∷ [])))
]

scan_digits-append :
    (a : ℕ) (l m : List ℕ) → AllDigits l → scan_digits a (l ++ m) ≡ scan_digits (scan_digits a l) m
unfolding scan_digits
scan_digits-append a [] m d = refl
scan_digits-append a (c ∷ l) m (first, d) = rw first (scan_digits-append (a * 10 + (c - 48)) l m d)

scan_digits-one : (a d : ℕ) → d < 10 → scan_digits a ((48 + d) ∷ []) ≡ a * 10 + d
unfolding scan_digits
scan_digits-one a d h = let is : isdigit (48 + d) ≡ true = ground (arith, h) in rw is (omega arith)

scan-digits : (places n : ℕ) → n < 10 ^ places → scan_digits 0 (digits places n) ≡ n
unfolding digits scan_digits
scan-digits zero n h = omega (arith, h)
scan-digits (suc p) n h = elim (Bool-cases (ltb n 10)) [
  | inl one ↦ rw one (scan_digits-one 0 n (ground (arith, one)) ∙ omega arith)
  | inr more ↦ rw more (
      scan_digits-append 0 (digits p (n / 10)) ((48 + n % 10) ∷ []) (digits-AllDigits p (n / 10))
      ∙ scan_digits-one (scan_digits 0 (digits p (n / 10))) (n % 10) (omega arith)
      ∙ ap (λ k. k * 10 + n % 10) (scan-digits p (n / 10) (omega (arith, h, pow.suc 10 p)))
      ∙ omega arith)
]

-- A digit is no white space and no sign, and not 0.
digit-skip_space : (c : ℕ) (l : List ℕ) → isdigit c ≡ true → skip_space (c ∷ l) ≡ c ∷ l
unfolding skip_space
digit-skip_space c l d = ground (arith, d)

scan_number-digit :
    (c : ℕ) (l : List ℕ)
    → isdigit c ≡ true
    → scan_number (c ∷ l) ≡ some (pos (scan_digits 0 (c ∷ l)))
unfolding scan_number scan_natural
scan_number-digit c l d =
    let minus : (c == b'-') ≡ false = ground (arith, d) in
    let plus : (c == b'+') ≡ false = ground (arith, d) in rw (minus, plus, d) refl

pub digits-until_zero :
    (l m : List ℕ) → AllDigits l → until_zero m ≡ m → until_zero (l ++ m) ≡ l ++ m
unfolding until_zero
digits-until_zero [] m d e = e
digits-until_zero (c ∷ l) m (first, d) e =
    let other : (c == 0) ≡ false = ground (arith, first) in
    rw other (ap (λ r. c ∷ r) (digits-until_zero l m d e))

-- Some digits and a text that no digit starts.
scan_text :
    (n : ℕ) (l m : List ℕ)
    → AllDigits l
    → 0 < length l
    → scan_digits 0 (l ++ m) ≡ n
    → scan_number (skip_space (l ++ m)) ≡ some (pos n)
scan_text n [] m d h e = absurd (omega (arith, h))
scan_text n (c ∷ l) m (first, d) h e =
    ap scan_number (digit-skip_space c (l ++ m) first)
    ∙ scan_number-digit c (l ++ m) first
    ∙ ap (λ k. some (pos k)) e

length-decimal : (n : ℕ) → 0 < length (decimal n)
unfolding digits decimal
length-decimal n = elim (Bool-cases (ltb n 10)) [
  | inl one ↦ rw one (omega arith)
  | inr more ↦ rw more (omega (arith, length-append (digits 19 (n / 10)) ((48 + n % 10) ∷ [])))
]

pub decimal-AllDigits : (n : ℕ) → AllDigits (decimal n)
unfolding decimal
decimal-AllDigits n = digits-AllDigits 20 n

pub length-decimal_bound : (n : ℕ) → length (decimal n) ≤ 20
unfolding decimal
length-decimal_bound n = length-digits 20 n

-- A number below 10 ^ 20 that is printed is scanned again, whatever follows it but a digit.
pub scan_number-decimal :
    (n : ℕ) (m : List ℕ)
    → n < 10 ^ 20
    → ((k : ℕ) → scan_digits k m ≡ k)
    → scan_number (skip_space (decimal n ++ m)) ≡ some (pos n)
unfolding decimal
scan_number-decimal n m h stops =
    scan_text n (digits 20 n) m (digits-AllDigits 20 n) (length-decimal n) (
      scan_digits-append 0 (digits 20 n) m (digits-AllDigits 20 n)
      ∙ stops (scan_digits 0 (digits 20 n))
      ∙ scan-digits 20 n h)
