-- ===== src/Backoff/Reply.antt =====
-- internal/backoff/gate.go: what a reply's status and body say. A body is seen as encoding/json sees
-- it: `none` where it is no valid JSON.
use infrafence_agent.Base.{
  ℕ, Bool, true, false, not, ◌||◌, Option, none, some, List, [], ◌==◌, if◌then◌else◌,
}
use infrafence_agent.Base.Text.{codes, equal_fold, trim_space}

mutual
  pub data Json : Type 0 where
    null : Json
    bool : Bool → Json
    num : ℕ → Json
    str : List ℕ → Json
    arr : Items → Json
    obj : Fields → Json

  pub data Items : Type 0 where
    nil : Items
    item : Json → Items → Items

  pub data Fields : Type 0 where
    end : Fields
    field : List ℕ → Json → Fields → Fields

abbrev pub Body : Type 0
Body = Option Json

-- `Refusal`: 401 or 403.
unfoldable pub refusal : ℕ → Bool
refusal status = status == 401 || status == 403

-- Decoding into a struct with the one field `error`: its value so far, or `none` after a value of
-- another type.
set_error : Json → Option (List ℕ) → Option (List ℕ)
set_error null found = found
set_error (str s) none = none
set_error (str s) (some _) = some s
set_error _ found = none

decode_fields : Fields → Option (List ℕ) → Option (List ℕ)
unfolding set_error
decode_fields end found = found
decode_fields (field k v fs) found =
    decode_fields fs (if equal_fold k (codes "error") then set_error v found else found)

decode_error : Body → Option (List ℕ)
unfolding decode_fields
decode_error (some null) = some []
decode_error (some (obj fs)) = decode_fields fs (some [])
decode_error _ = none

says_suspended : Option (List ℕ) → Bool
says_suspended (some e) = equal_fold (trim_space e) (codes "suspended")
says_suspended none = false

-- `IsSuspended`.
unfoldable pub is_suspended : ℕ → Body → Bool
unfolding says_suspended decode_error equal_fold trim_space
is_suspended status body = if not (status == 403) then false else says_suspended (decode_error body)

-- `dashboardBody`: a JSON object with a field.
unfoldable pub dashboard_body : Body → Bool
dashboard_body (some (obj (field k v fs))) = true
dashboard_body _ = false
