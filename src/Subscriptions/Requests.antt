-- ===== src/Subscriptions/Requests.antt =====
-- `validate` and its helpers in api/src/subscriptions/subscriptions.service.ts and
-- subscription-terms.ts: what a grant request must be before a session is opened.
use Prim.Native.Char.{Char, code}
use text.Mathlib.TextBridge.{of_list}
use royalvibe_cosmetic.Common.{
  ℕ, ◌+◌, String, Bool, ◌&&◌, ◌||◌, Option, none, some, List, [], ◌∷◌, map, all, length, leb, ltb,
  ◌==◌, str_eq, if◌then◌else◌, ◌>>=◌,
}
use royalvibe_cosmetic.Subscriptions.Months.{
  SubscriptionTerm, monthly, quarterly, semiannual, annual,
}

pub data SubscriptionSource : Type 0 where
  trial manual payment : SubscriptionSource

pub data GrantError : Type 0 where
  invalid_input organization_not_found reference_conflict trial_already_granted : GrantError
  grant_contention grant_timeout transaction_required invalid_budget : GrantError
  duplicate_reference duplicate_sequence duplicate_trial : GrantError
  duplicate_provider_reference failure : GrantError

pub data Result {ℓ} (A : Type ℓ) : Type ℓ where
  ok : A → Result A
  err : GrantError → Result A

-- The request as it is received: every field is a text.
pub record GrantInput : Type 0 where
  pub organization_id : String
  pub term : String
  pub source : String
  pub source_reference : String
  pub granted_by : String

pub record ValidatedGrantRequest : Type 0 where
  pub organization_id : String
  pub term : SubscriptionTerm
  pub source : SubscriptionSource
  pub source_reference : String
  pub granted_by : String

-- The characters of a text.
abbrev pub chars : String → List Char
chars String.[] = []
chars (String.◌∷◌ c s) = c ∷ chars s

abbrev pub between : ℕ → ℕ → ℕ → Bool
between low high n = leb low n && leb n high

-- `[0-9a-fA-F]`
abbrev is_hex : Char → Bool
is_hex c = between 48 57 (code c) || (between 97 102 (code c) || between 65 70 (code c))

-- `ObjectId` keeps the number: its text is in lower case.
abbrev pub lower_hex : Char → Char
lower_hex c =
    if code c == 65
    then "a"
    else if code c == 66
    then "b"
    else if code c == 67
    then "c"
    else if code c == 68
    then "d"
    else if code c == 69
    then "e"
    else if code c == 70
    then "f"
    else c

-- `isStrictObjectId`, then `new Types.ObjectId(value)`.
unfoldable pub strict_object_id : String → Option String
strict_object_id value =
    let cs = chars value in
    if length cs == 24 && all is_hex cs then some (of_list (map lower_hex cs)) else none

-- The white space and the line ends of the language's `trim`.
abbrev pub is_space : Char → Bool
is_space c =
    let n = code c in
    between 9 13 n
    || (n == 32
        || (n == 160
            || (n == 5760
                || (between 8192 8202 n
                    || (n == 8232
                        || (n == 8233
                            || (n == 8239 || (n == 8287 || (n == 12288 || n == 65279)))))))))

abbrev pub trim_start : List Char → List Char
trim_start [] = []
trim_start (c ∷ cs) = if is_space c then trim_start cs else c ∷ cs

abbrev pub trim_end : List Char → List Char
trim_end [] = []
trim_end (c ∷ cs) = if all is_space (c ∷ cs) then [] else c ∷ trim_end cs

-- The language measures a text in units of sixteen bits.
abbrev pub units : List Char → ℕ
units [] = 0
units (c ∷ cs) = (if ltb (code c) 65536 then 1 else 2) + units cs

unfoldable pub bounded_text : String → ℕ → Option String
bounded_text value max =
    let trimmed = trim_end (trim_start (chars value)) in
    if leb 1 (units trimmed) && leb (units trimmed) max then some (of_list trimmed) else none

abbrev pub subscription_reference_max_length : ℕ
subscription_reference_max_length = 200

abbrev pub subscription_grantor_max_length : ℕ
subscription_grantor_max_length = 100

-- `isSubscriptionTerm`
unfoldable pub subscription_term : String → Option SubscriptionTerm
subscription_term value =
    if str_eq value "monthly"
    then some monthly
    else if str_eq value "quarterly"
    then some quarterly
    else if str_eq value "semiannual"
    then some semiannual
    else if str_eq value "annual"
    then some annual
    else none

-- `isGrantableSubscriptionSource`
unfoldable pub grantable_source : String → Option SubscriptionSource
grantable_source value =
    if str_eq value "manual"
    then some manual
    else if str_eq value "payment"
    then some payment
    else none

-- The steps of `validate` in their order; each refusal has the one code.
unfoldable pub validate : GrantInput → Option ValidatedGrantRequest
validate input = do
  organization_id ← strict_object_id input.organization_id
  term ← subscription_term input.term
  source_reference ← bounded_text input.source_reference subscription_reference_max_length
  source ← grantable_source input.source
  granted_by ← bounded_text input.granted_by subscription_grantor_max_length
  some (record {
    organization_id = organization_id;
    term = term;
    source = source;
    source_reference = source_reference;
    granted_by = granted_by;
  })
