-- ===== src/Backend/Schedules/Count.antt =====
-- The events that one tick of the reconciler of backend/internal/schedules records, counted.
use qr_domofon.Base.{
  ℕ, ◌+◌, String, ◌≡◌, refl, sym, ap, ◌∙◌, Bool, true, false, List, [], ◌∷◌, ◌++◌, str_eq, eq_iff,
  if◌then◌else◌, arith,
}
use qr_domofon.Backend.Audit.{Event}
use qr_domofon.Backend.Schedules.Reconciler.{
  Effect, publish, record_event, Tick, OpenPoint, has_key, ids_of, pulse, renew, close_gone,
  started_event, ended_event,
}

-- How many of the effects are the event of this type at this point.
is_event : String → String → Event → Bool
is_event type id ev = if str_eq ev.event_type type then str_eq ev.access_point_id id else false

bit : Bool → ℕ
bit true = 1
bit false = 0

unfoldable pub count_events : String → String → List Effect → ℕ
unfolding is_event bit
count_events type id [] = 0
count_events type id (publish _ _ ∷ fs) = count_events type id fs
count_events type id (record_event ev ∷ fs) = bit (is_event type id ev) + count_events type id fs

abbrev pub starts : String → List Effect → ℕ
starts id fs = count_events "scheduled_open_started" id fs

abbrev pub ends : String → List Effect → ℕ
ends id fs = count_events "scheduled_open_ended" id fs

abbrev pub open_bit : String → List String → ℕ
open_bit id open_ = if has_key open_ id then 1 else 0

-- The keys of a map are different.
abbrev pub Distinct : List String → Type 0
Distinct [] = Unit
Distinct (x ∷ xs) = (has_key xs x ≡ false) × Distinct xs

pub count_events-append :
    (type id : String) (fs gs : List Effect)
    → count_events type id (fs ++ gs) ≡ count_events type id fs + count_events type id gs
unfolding count_events
count_events-append type id [] gs = omega arith
count_events-append type id (publish _ _ ∷ fs) gs = count_events-append type id fs gs
count_events-append type id (record_event ev ∷ fs) gs =
    omega (arith, count_events-append type id fs gs)

count_events-pulse :
    (type id : String) (lease : ℕ) (t : Tick) (p : OpenPoint)
    → count_events type id (pulse lease t p) ≡ 0
unfolding count_events pulse
count_events-pulse type id lease t p = ground arith

abbrev unless : Bool → ℕ → ℕ
unless true n = 0
unless false n = n

count_events-unless :
    (type id : String) (b : Bool) (ev : Event) (fs : List Effect)
    → count_events type id (if b then fs else record_event ev ∷ fs)
      ≡ unless b (bit (is_event type id ev)) + count_events type id fs
unfolding count_events
count_events-unless type id true ev fs = omega arith
count_events-unless type id false ev fs = refl

count_events-renew :
    (type id : String) (lease : ℕ) (t : Tick) (open_ : List String) (p : OpenPoint)
    (ps : List OpenPoint)
    → count_events type id (renew lease t open_ (p ∷ ps))
      ≡ unless (has_key open_ p.access_point_id) (bit (is_event type id (started_event p)))
        + count_events type id (renew lease t open_ ps)
unfolding renew
count_events-renew type id lease t open_ p ps =
    count_events-unless type id (has_key open_ p.access_point_id) (started_event p) _
    ∙ ap
        (λ n.
          unless (has_key open_ p.access_point_id) (bit (is_event type id (started_event p))) + n)
        (skip (count_events-append type id (pulse lease t p) (renew lease t open_ ps))
          (count_events-pulse type id lease t p))
  where
    skip : {a b c : ℕ} → a ≡ b + c → b ≡ 0 → a ≡ c
    skip h e = omega arith

-- The number of a loop over different keys: each is met once.
once :
    (now was same later : Bool) (n m : ℕ)
    → m ≡ unless was (bit same) + n
    → n ≡ (if later then if now then 0 else 1 else 0)
    → (same ≡ true → later ≡ false)
    → (same ≡ true → was ≡ now)
    → m ≡ (if (if same then true else later) then if now then 0 else 1 else 0)
unfolding bit
once now was true later n m e f g h = let gg = g refl in let hh = h refl in ground arith
once now was false later n m e f g h = ground arith

pub moved : (xs : List String) (k id : String) → str_eq k id ≡ true → has_key xs k ≡ has_key xs id
moved xs k id same = ap (λ j. has_key xs j) ((eq_iff k id).0 same)

pub starts-renew :
    (id : String) (lease : ℕ) (t : Tick) (open_ : List String) (ps : List OpenPoint)
    → Distinct (ids_of ps)
    → starts id (renew lease t open_ ps)
      ≡ (if has_key (ids_of ps) id then if has_key open_ id then 0 else 1 else 0)
unfolding renew count_events is_event bit
starts-renew id lease t open_ [] d = refl
starts-renew id lease t open_ (p ∷ ps) (new, d) =
    once (has_key open_ id) (has_key open_ p.access_point_id) (str_eq p.access_point_id id)
      (has_key (ids_of ps) id) _ _
      (count_events-renew "scheduled_open_started" id lease t open_ p ps)
      (starts-renew id lease t open_ ps d)
      (λ same. sym (moved (ids_of ps) p.access_point_id id same) ∙ new)
      (moved open_ p.access_point_id id)

pub ends-close_gone :
    (id : String) (now_open open_ : List String)
    → Distinct open_
    → ends id (close_gone now_open open_)
      ≡ (if has_key open_ id then if has_key now_open id then 0 else 1 else 0)
unfolding close_gone count_events is_event bit
ends-close_gone id now_open [] d = refl
ends-close_gone id now_open (k ∷ ks) (new, d) =
    once (has_key now_open id) (has_key now_open k) (str_eq k id) (has_key ks id) _ _
      (count_events-unless "scheduled_open_ended" id (has_key now_open k) (ended_event k)
        (close_gone now_open ks))
      (ends-close_gone id now_open ks d) (λ same. sym (moved ks k id same) ∙ new)
      (moved now_open k id)

pub ends-renew :
    (id : String) (lease : ℕ) (t : Tick) (open_ : List String) (ps : List OpenPoint)
    → ends id (renew lease t open_ ps) ≡ 0
unfolding renew count_events is_event bit
ends-renew id lease t open_ [] = refl
ends-renew id lease t open_ (p ∷ ps) =
    count_events-renew "scheduled_open_ended" id lease t open_ p ps
    ∙ none_more (has_key open_ p.access_point_id) (ends-renew id lease t open_ ps)
  where
    none_more :
        (b : Bool)
        → ends id (renew lease t open_ ps) ≡ 0
        → unless b 0 + ends id (renew lease t open_ ps) ≡ 0
    none_more true h = omega arith
    none_more false h = omega arith

pub starts-close_gone :
    (id : String) (now_open open_ : List String) → starts id (close_gone now_open open_) ≡ 0
unfolding close_gone count_events is_event bit
starts-close_gone id now_open [] = refl
starts-close_gone id now_open (k ∷ ks) =
    count_events-unless "scheduled_open_started" id (has_key now_open k) (ended_event k)
      (close_gone now_open ks)
    ∙ none_more (has_key now_open k) (starts-close_gone id now_open ks)
  where
    none_more :
        (b : Bool)
        → starts id (close_gone now_open ks) ≡ 0
        → unless b 0 + starts id (close_gone now_open ks) ≡ 0
    none_more true h = omega arith
    none_more false h = omega arith
