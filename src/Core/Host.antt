-- ===== src/Core/Host.antt =====
-- What the program takes from its JavaScript runtime, which is not under its sources. Draws of
-- random identifiers and of the clock have numbers that grow along a run.
use loop_engine.Prelude.{ℕ, String, Option, Bool}
use loop_engine.Prelude.Int.{ℤ}
use loop_engine.Core.Values.{Value, Number}

pub record Platform : Type 0 where
  -- `crypto.randomUUID()`
  pub random_uuid : ℕ → String
  -- `new Date().toISOString()` and `Date.now()`
  pub iso_now : ℕ → String
  pub now_ms : ℕ → Number
  -- `Date.parse`, with `none` for `NaN`
  pub parse_date : String → Option ℤ
  -- `String(v)` and `Number(v)`
  pub to_text : Value → String
  pub to_number : Value → Number
  -- `a - b` on doubles
  pub sub_number : Number → Number → Number
  -- `d.toISOString()` of the date with a time value
  pub date_iso : Number → String
  -- `Math.random().toString(36).slice(2, 8)`
  pub random_suffix : ℕ → String
  -- whether `key in {}`
  pub is_inherited : String → Bool
  -- `s.trim()`, `s.toLowerCase()` and `s.slice(0, n)`
  pub trim : String → String
  pub to_lower : String → String
  pub slice : String → ℕ → String
  -- `JSON.stringify` of an object, with `none` where it throws, of a number and of a text
  pub json_stringify : Value → Option String
  pub json_number : Number → String
  pub json_string : String → String
  -- `createHash("sha256").update(text, "utf8").digest("hex")`
  pub sha256_hex : String → String
