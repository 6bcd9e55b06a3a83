-- ===== src/Sec/Edgar.antt =====
-- src/argus/sec_poller/edgar.py: `parse_form4`, the fields of a Form 4 filing. `lxml` is a
-- third-party library: a parsed document is given by the text of the first element on each path,
-- and the readings of `int` and `float` on such a text are a parameter. Money is counted in
-- millionths of a dollar, shares in units.
use argus_core.Common.{
  ℕ, ◌*◌, Bool, true, false, ◌||◌, List, [], ◌∷◌, Option, none, some, if◌then◌else◌,
}
use argus_core.Common.Text.{Text, codes, text_eq, truthy, text_or}
use argus_core.Unicode.{Unicode}

pub record Form4Data : Type 0 where
  pub ticker : Text
  pub filer_name : Text
  pub filer_role : Text
  pub transaction_code : Text
  pub shares : ℕ
  pub price_per_share : ℕ
  pub value_usd : ℕ

-- `root.find(".//path")`: `none` if there is no element, `some none` if it has no text.
abbrev pub Document : Type 0
Document = Text → Option (Option Text)

-- `int` and `float`; `none` is their ValueError.
pub record Numerals : Type 0 where
  pub int_of : Text → Option ℕ
  pub float_of : Text → Option ℕ

-- `_find(path)`.
unfoldable pub find_text : Document → Text → Option Text
find_text root path = elim (root path) [
  | none ↦ none
  | some text ↦ if truthy text then text else none
]

-- The two steps behind `not all([...])`: each required text is there.
abbrev pub all_there : List (Option Text) → Bool
all_there [] = true
all_there (t ∷ ts) = if truthy t then all_there ts else false

module _ (u : Unicode) (numerals : Numerals) where
  role_of : Document → Text
  role_of root =
      let flag = u.lower (text_or (find_text root (codes "isDirector")) []) in
      text_or (find_text root (codes "officerTitle"))
        (if text_eq flag (codes "true") || text_eq flag (codes "1") then codes "Director" else [])

  build : Document → Option ℕ → Option ℕ → Option Form4Data
  unfolding role_of
  build root none price = none
  build root (some shares) none = none
  build root (some shares) (some price) = some (record {
    ticker = text_or (find_text root (codes "issuerTradingSymbol")) [];
    filer_name = text_or (find_text root (codes "rptOwnerName")) [];
    filer_role = role_of root;
    transaction_code = text_or (find_text root (codes "transactionCode")) [];
    shares = shares;
    price_per_share = price;
    value_usd = shares * price;
  })

  -- `parse_form4`: `none` is a ValueError; a document that `etree` refuses is `none` already.
  unfoldable pub parse_form4 : Option Document → Option Form4Data
  unfolding build
  parse_form4 none = none
  parse_form4 (some root) =
      let shares = find_text root (codes "transactionShares/value") in
      let price = find_text root (codes "transactionPricePerShare/value") in
      if all_there (
        find_text root (codes "issuerTradingSymbol")
        ∷ find_text root (codes "rptOwnerName")
        ∷ find_text root (codes "transactionCode")
        ∷ shares
        ∷ price
        ∷ [])
      then build root (numerals.int_of (text_or shares [])) (numerals.float_of (text_or price []))
      else none
