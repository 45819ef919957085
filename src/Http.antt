-- ===== src/Http.antt =====
-- What the sources that call an HTTP API share of Go's libraries. `Web` is what net/http, net/url,
-- encoding/json, the context, the clock and the channel of results do, over a world `W`; a decoder
-- gets the whole body, and a nil error is `none`. The texts of numbers (strconv) are definitions.
pub mod Laws
pub mod Sample
mod Tests
use ibdm.Base.{
  ℕ, ℤ, pos, negsuc, zero, suc, ◌+◌, ◌-◌, ◌*◌, ◌/◌, ◌%◌, ◌^◌, String, Bool, true, false, ◌&&◌, ◌||◌,
  Option, none, some, List, [], ◌∷◌, Err, Result, ok, err, ltb, leb, eqb, codes, if◌then◌else◌,
}
use ibdm.Value.{Fields}
use ibdm.Source.{Data}
use ibdm.Effect.{Effect, ◌>>=◌, ◌>>◌, pure, check, attempt, each}
use Prim.Native.String.{slice}

abbrev pub concat : String → String → String
concat a b = Prim.Native.String.◌++◌ a b

-- A URL is kept by its parts: what `url` is made of, the path and the query that are set on it.
pub record Request : Type 0 where
  pub method : String
  pub url : String
  pub path : String
  pub query : List (String × String)
  pub headers : List (String × String)
  pub body : String

pub record Response : Type 0 where
  pub status : ℕ
  pub header : String → String
  pub body : String

pub record Web (W : Type 0) : Type 0 where
  -- url.Parse and http.NewRequestWithContext, by their errors
  pub parse_url : String → Option Err
  pub new_request : Request → Option Err
  -- http.Client.Do
  pub send_request : Request → W → Result Response × W
  -- url.ParseQuery
  pub parse_query : String → Result (List (String × String))
  -- io.ReadAll on the body of a response
  pub read_all : String → Result String
  -- url.PathEscape and the value of a header for http.Request.SetBasicAuth
  pub escape : String → String
  pub basic_auth : String → String → String
  -- the program's name and version, which the build sets (internal/info)
  pub user_agent : String
  -- ctx.Err()
  pub ctx_err : W → Option Err
  -- time.Now, and time.Parse for time.RFC3339
  pub now : W → ℕ
  pub parse_time : String → Option ℕ
  -- results <- data
  pub results : Data → W → W
  -- json.Unmarshal and json.Decoder for map[string]any and for []map[string]any
  pub decode_object : String → Result Fields
  pub decode_objects : String → Result (List Fields)
  -- int64(f), of the bits of a float64
  pub int_of : ℕ → ℤ

-- encoding/hex and crypto/hmac, of a secret and a text, or another hash of the two.
pub record Signing : Type 0 where
  pub decode_hex : String → Option String
  pub mac : String → String → String

module _ {W : Type 0} (web : Web W) where
  abbrev pub create : Request → Effect W Unit
  create req = check (web.new_request req)

  abbrev pub send : Request → Effect W Response
  send req w = some (web.send_request req w)

  abbrev pub emit : Data → Effect W Unit
  emit d w = some (ok tt, web.results d w)

  abbrev pub clock : Effect W ℕ
  clock w = some (ok (web.now w), w)

  abbrev pub context_error : Effect W (Option Err)
  context_error w = some (ok (web.ctx_err w), w)

  -- The data of an event is sent; an error is only logged.
  abbrev pub deliver : Effect W (List Data) → Effect W Unit
  deliver processed = do r ← attempt processed; elim r [ err e ↦ pure tt | ok ds ↦ each emit ds ]

  -- if err := ctx.Err(); err != nil { return nil }
  abbrev pub unless_done : Effect W Unit → Effect W Unit
  unless_done rest = do e ← context_error; elim e [ some _ ↦ pure tt | none ↦ rest ]

  -- A loop that returns nil when the context is done, and what follows it.
  unfoldable pub each_live :
      {A : Type 0} → (A → Effect W Unit) → List A → Effect W Unit → Effect W Unit
  each_live body [] rest = rest
  each_live body (x ∷ xs) rest =
      let others = each_live body xs rest in unless_done (body x >> others)

-- resp.StatusCode < 200 || resp.StatusCode >= 300
abbrev pub is_failure : ℕ → Bool
is_failure status = ltb status 200 || ltb 299 status

abbrev pub digit : ℕ → String
digit n = slice "0123456789" n (n + 1)

-- The fuel bounds the number of digits.
unfoldable pub digits : ℕ → ℕ → String
digits zero n = digit (n % 10)
digits (suc fuel) n =
    let front = digits fuel (n / 10) in if ltb n 10 then digit n else concat front (digit (n % 10))

-- strconv.Itoa and strconv.FormatInt for base 10
unfoldable pub itoa : ℤ → String
unfolding digits
itoa (pos n) = digits n n
itoa (negsuc n) = concat "-" (digits (suc n) (suc n))

-- The number that decimal digits write, at least one of them.
unfoldable pub read_digits : ℕ → List ℕ → Option ℕ
read_digits n [] = some n
read_digits n (c ∷ cs) =
    let rest = read_digits (10 * n + (c - 48)) cs in if leb 48 c && leb c 57 then rest else none

unfoldable pub read_number : List ℕ → Option ℕ
unfolding read_digits
read_number [] = none
read_number (c ∷ cs) = read_digits 0 (c ∷ cs)

-- The bounds of a 64-bit int: what strconv.Atoi returns out of range.
abbrev pub clamp_positive : Option ℕ → ℤ
clamp_positive none = pos 0
clamp_positive (some n) = if ltb n (2 ^ 63) then pos n else pos (2 ^ 63 - 1)

abbrev pub clamp_negative : Option ℕ → ℤ
clamp_negative none = pos 0
clamp_negative (some zero) = pos 0
clamp_negative (some (suc n)) = if ltb n (2 ^ 63) then negsuc n else negsuc (2 ^ 63 - 1)

-- strconv.Atoi, of which the code ignores the error: 0 for a text that is no number.
unfoldable pub atoi : String → ℤ
unfolding read_number
atoi s = elim (codes s) [
  | [] ↦ pos 0
  | c ∷ cs ↦
      if eqb c 43
      then clamp_positive (read_number cs)
      else if eqb c 45
      then clamp_negative (read_number cs)
      else clamp_positive (read_number (c ∷ cs))
]
