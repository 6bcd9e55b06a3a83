-- ===== src/Unicode.antt =====
-- What the services ask of Python's Unicode tables: `str.lower` and the classes `\w` and `\s` of
-- the module `re`. The tables are data of the interpreter, so they are a parameter; `ascii` is
-- their part for the code points below 128.
use argus_core.Common.{ℕ, ◌+◌, Bool, ◌&&◌, ◌||◌, map, leb, ◌==◌, if◌then◌else◌}
use argus_core.Common.Text.{Text}

pub record Unicode : Type 0 where
  pub lower : Text → Text
  pub is_word : ℕ → Bool
  pub is_space : ℕ → Bool

abbrev pub lower_char : ℕ → ℕ
lower_char c = if leb b'A' c && leb c b'Z' then c + 32 else c

abbrev pub ascii_word : ℕ → Bool
ascii_word c =
    (leb b'a' c && leb c b'z')
    || (leb b'A' c && leb c b'Z')
    || (leb b'0' c && leb c b'9')
    || c == b'_'

abbrev pub ascii_space : ℕ → Bool
ascii_space c = c == 32 || (leb 9 c && leb c 13) || (leb 28 c && leb c 31)

abbrev pub ascii : Unicode
ascii = record { lower = map lower_char; is_word = ascii_word; is_space = ascii_space }
