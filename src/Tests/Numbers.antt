-- ===== src/Tests/Numbers.antt =====
-- The first event, and the first state key, get numbers.
use grapevine.Prelude.{
  ℕ, ◌≤◌, true, false, not, ◌↔◌, Bool, [], ◌∷◌, none, some, ok, ◌≡◌, refl, ℕ-Eq, List-Eq, Eq,
  Pair-Eq, arith, nat_eq,
}
use grapevine.Utils.{Bytes}
use grapevine.Utils.Utf8.{is_utf8}
use grapevine.LruCache.{LruCache, one_entry, peek_one}
use grapevine.Database.ListTree.{list_tree}
use grapevine.Database.Tree.{find}
use grapevine.Globals.{current_count}
use grapevine.Short.{
  Types, ShortTrees, event_db_key, read_event_id, state_db_key, read_state_key, EventShorts,
  StateKeyShorts, get_or_create_shorteventid, get_eventid_from_short, get_or_create_shortstatekey,
  get_shortstatekey, get_statekey_from_short,
}
use grapevine.Short.Bijection.{HasShort, IsBijection}
use grapevine.Short.Cached.{IsSound}
use grapevine.Short.Ids.{get_eventid-get_or_create, get_statekey-get_or_create}

pub type_name : Bool → Bytes
type_name true = b'm' ∷ []
type_name false = b'n' ∷ []

pub named_type : Bytes → Bool
named_type [] = false
named_type (b ∷ _) = nat_eq b b'm'

pub type_name_utf8 : (t : Bool) → is_utf8 (type_name t) ≡ true
unfolding is_utf8 type_name
type_name_utf8 true = refl
type_name_utf8 false = refl

pub named_type-type_name : (t : Bool) → named_type (type_name t) ≡ t
unfolding named_type type_name
named_type-type_name true = refl
named_type-type_name false = refl

-- Two event types.
abbrev pub types : Types
types = record {
  StateEventType = Bool;
  to_string = type_name;
  from_string = named_type;
  is_utf8-to_string = type_name_utf8;
  from_string-to_string = named_type-type_name;
  is_event_id = λ id. true;
}

abbrev pub no_numbers : ShortTrees list_tree
no_numbers = record { forward = []; backward = []; global = [] }

no_numbers-IsBijection : IsBijection list_tree 0 no_numbers
unfolding find current_count
no_numbers-IsBijection = record {
  counted = refl;
  there = λ key bytes has. cc;
  back = λ n key below is_back. cc;
}

abbrev pub numbers : LruCache Bytes ℕ
numbers = one_entry

abbrev pub names : LruCache ℕ Bytes
names = one_entry

same_type : (s t : Bool) → Bool
same_type true t = t
same_type false t = not t

same_type_iff : (s t : Bool) → (same_type s t ≡ true) ↔ (s ≡ t)
unfolding same_type
same_type_iff true true = (λ h. refl, λ h. refl)
same_type_iff true false = (λ h. cc, λ h. cc)
same_type_iff false true = (λ h. cc, λ h. cc)
same_type_iff false false = (λ h. refl, λ h. refl)

instance abbrev Bool-Eq : Eq Bool
Bool-Eq = record { same = same_type; same_iff = same_type_iff }

abbrev key_numbers : LruCache (Bool × Bytes) ℕ
key_numbers = one_entry

abbrev keys : LruCache ℕ (Bool × Bytes)
keys = one_entry

abbrev no_keys : StateKeyShorts types list_tree key_numbers keys
no_keys = record { trees = no_numbers; short_cache = none; key_cache = none }

no_keys-IsSound :
    IsSound list_tree (state_db_key types) (read_state_key types) key_numbers keys 0 no_keys
unfolding peek_one
no_keys-IsSound = record {
  bijection = no_numbers-IsBijection;
  cached = λ key n hit. cc;
  cached_back = λ n key below hit. cc;
}

get_statekey-get_or_create_example :
    (n : ℕ) × (t : StateKeyShorts types list_tree key_numbers keys) × (get_or_create_shortstatekey
        types list_tree key_numbers keys no_keys
        (true, b'@' ∷ [])
      ≡ (ok n, t))
    × ((count : ℕ) × (count ≤ 1)
        × IsSound list_tree (state_db_key types) (read_state_key types) key_numbers keys count t)
    × ((get_shortstatekey types list_tree key_numbers keys t (true, b'@' ∷ [])).0 ≡ ok (some n))
    × ((get_statekey_from_short types list_tree key_numbers keys t n).0 ≡ ok (true, b'@' ∷ []))
    × ((other : Bool × Bytes) (m : ℕ)
        → HasShort list_tree no_numbers.forward (state_db_key types other) m
        → HasShort list_tree t.trees.forward (state_db_key types other) m)
unfolding is_utf8 no_keys-IsSound no_numbers-IsBijection
get_statekey-get_or_create_example =
    get_statekey-get_or_create types list_tree key_numbers keys 0 no_keys no_keys-IsSound true
      (b'@' ∷ []) (omega arith) refl

abbrev pub no_events : EventShorts types list_tree numbers names
no_events = record { trees = no_numbers; short_cache = none; key_cache = none }

pub no_events-IsSound :
    IsSound list_tree event_db_key (read_event_id types) numbers names 0 no_events
unfolding peek_one
no_events-IsSound = record {
  bijection = no_numbers-IsBijection;
  cached = λ key n hit. cc;
  cached_back = λ n key below hit. cc;
}

get_eventid-get_or_create_example :
    (n : ℕ) × (t : EventShorts types list_tree numbers names) × (get_or_create_shorteventid types
        list_tree numbers names no_events
        (b'$' ∷ [])
      ≡ (ok n, t))
    × ((count : ℕ) × (count ≤ 1)
        × IsSound list_tree event_db_key (read_event_id types) numbers names count t)
    × ((get_eventid_from_short types list_tree numbers names t n).0 ≡ ok (b'$' ∷ []))
    × ((other : Bytes) (m : ℕ)
        → HasShort list_tree no_numbers.forward other m
        → HasShort list_tree t.trees.forward other m)
unfolding is_utf8 no_events-IsSound no_numbers-IsBijection
get_eventid-get_or_create_example =
    get_eventid-get_or_create types list_tree numbers names 0 no_events no_events-IsSound
      (b'$' ∷ []) (omega arith) refl refl
