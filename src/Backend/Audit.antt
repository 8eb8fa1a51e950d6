-- ===== src/Backend/Audit.antt =====
-- backend/internal/audit/recorder.go: the events, and the table that they are appended to. A row that
-- was appended later stands nearer to the front, so the list is the order `id DESC`.
pub mod Scope
use qr_domofon.Base.{ℕ, zero, suc, String, Bool, false, List, [], ◌∷◌, str_eq, ltb, if◌then◌else◌}
use qr_domofon.Base.Int.{ℤ, pos, negsuc}

-- The values of a map of metadata.
pub data Value : Type 0 where
  number : ℕ → Value
  text : String → Value
  flag : Bool → Value

pub record Event : Type 0 where
  pub event_type : String
  pub actor : String
  pub apartment_id : String
  pub access_point_id : String
  pub device_id : String
  pub call_id : String
  pub request_id : String
  pub management_company_id : String
  pub metadata : List (String × Value)

abbrev pub no_event : Event
no_event = record {
  event_type = "";
  actor = "";
  apartment_id = "";
  access_point_id = "";
  device_id = "";
  call_id = "";
  request_id = "";
  management_company_id = "";
  metadata = [];
}

-- `meta[k] = v` on a map of metadata.
unfoldable pub put : List (String × Value) → String → Value → List (String × Value)
put [] k v = (k, v) ∷ []
put ((k', v') ∷ rest) k v =
    let later = put rest k v in if str_eq k' k then (k, v) ∷ rest else (k', v') ∷ later

-- `for k, v := range extra { meta[k] = v }`.
unfoldable pub put_all : List (String × Value) → List (String × Value) → List (String × Value)
put_all meta [] = meta
put_all meta ((k, v) ∷ rest) = put_all (put meta k v) rest

abbrev pub default_limit : ℕ
default_limit = 50

abbrev pub max_limit : ℕ
max_limit = 500

pub record Row : Type 0 where
  pub id : ℕ
  pub event : Event

pub record Table : Type 0 where
  pub rows : List Row
  pub next_id : ℕ

-- An insertion that succeeds.
unfoldable pub insert : Table → Event → Table
insert t ev = record {
  rows = (record { id = t.next_id; event = ev }) ∷ t.rows;
  next_id = suc t.next_id;
}

unfoldable pub clamp_limit : ℤ → ℕ
clamp_limit (negsuc _) = default_limit
clamp_limit (pos zero) = default_limit
clamp_limit (pos (suc n)) = if ltb max_limit (suc n) then max_limit else suc n

-- `WHERE management_company_id::text = $1`: an event without a company has NULL there, which equals
-- nothing.
unfoldable pub in_scope : String → Event → Bool
in_scope mc_id ev =
    if str_eq ev.management_company_id "" then false else str_eq ev.management_company_id mc_id

-- `LIMIT`, on the rows in scope.
select : ℕ → String → List Row → List Row
select zero mc_id rows = []
select (suc n) mc_id [] = []
select (suc n) mc_id (r ∷ rs) =
    let taken = select n mc_id rs in
    let skipped = select (suc n) mc_id rs in if in_scope mc_id r.event then r ∷ taken else skipped

unfoldable pub list : Table → String → ℤ → List Row
unfolding select
list t mc_id limit = select (clamp_limit limit) mc_id t.rows
