-- ===== src/Infra/Currency.antt =====
-- `formatCurrency` of infra/pdf/receipt-generator.ts. `toLocaleString('en-IN')` with two decimals
-- groups the last three digits of the rupees and then each two: 12,34,567.00. `amountCents / 100` is
-- read as exact, which two decimals of a double are below 2 ^ 46 rupees.
use Prim.Native.Char.{Char, code}
use Prim.Native.Nat.{◌/◌, ◌%◌}
use Prim.Native.String
use vanguard_settlement_engi.Base.{
  ℕ, zero, suc, ◌+◌, ◌*◌, ◌-◌, String, Bool, ◌&&◌, ◌==◌, leb, ltb, if◌then◌else◌,
}

digit : ℕ → Char
digit d =
    if d == 0
    then "0"
    else if d == 1
    then "1"
    else if d == 2
    then "2"
    else if d == 3
    then "3"
    else if d == 4
    then "4"
    else if d == 5
    then "5"
    else if d == 6
    then "6"
    else if d == 7
    then "7"
    else if d == 8
    then "8"
    else "9"

-- Whether a comma stands left of the digits, of which `count` are written.
abbrev is_group : ℕ → Bool
is_group count = leb 3 count && count % 2 == 1

-- The digits of `n` in front of `s`, from the last to the first.
grouped : ℕ → ℕ → ℕ → String → String
unfolding digit
grouped zero count n s = s
grouped (suc fuel) count n s =
    let s' = String.◌∷◌ (digit (n % 10)) s in
    let rest =
      grouped fuel (count + 1) (n / 10) (if is_group (count + 1) then String.◌∷◌ "," s' else s') in
    if ltb n 10 then s' else rest

-- A number has at most as many digits as it is large.
unfoldable pub format_amount : ℕ → String
unfolding grouped digit
format_amount cents =
    grouped (cents / 100 + 1) 0 (cents / 100)
      (String.◌∷◌ "." (String.◌∷◌ (digit (cents / 10 % 10)) (String.◌∷◌ (digit (cents % 10)) "")))

unfoldable pub format_currency : ℕ → String → String
format_currency amount_cents currency =
    String.◌++◌ currency (String.◌++◌ " " (format_amount amount_cents))

-- How the text is read back: its digits, whatever stands between them.
unfoldable pub read_digits : ℕ → String → ℕ
read_digits acc String.[] = acc
read_digits acc (String.◌∷◌ c s) =
    read_digits (if leb 48 (code c) && leb (code c) 57 then acc * 10 + (code c - 48) else acc) s
