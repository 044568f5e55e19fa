-- ===== src/Registry/Storage/Laws.antt =====
-- The laws of the store (sip/registry/storage.py) as a finite map from ids to descriptors.
use semantic_intent_protocol.Base.{
  [], inr, ◌⊎◌, ◌∷◌, suc, none, some, true, false, inl, ap, length, Dict, lookup-erase, string_eq,
  ◌≢◌, Option-cases, eq_iff, arith, lookup-insert, values, erase-NodupKeys, ◌==◌, ◌↔◌, In,
  if◌then◌else◌, insert-NodupKeys, lookup, Bool-cases, NodupKeys, is_some, erase, insert, String,
  ◌≡◌, refl,
}
use semantic_intent_protocol.Registry.Storage.{
  clear, count, CapabilityDescriptor, CapabilityStore, delete, get, list_all, put,
}

-- A descriptor stands under its own id.
abbrev pub IsKeyed : CapabilityStore → Type 0
IsKeyed [] = Unit
IsKeyed ((k, c) ∷ s) = (c.capability_id ≡ k) × IsKeyed s

-- The invariant of the store: no id twice, and each descriptor under its own.
pub record IsValid (s : CapabilityStore) : Type 0 where
  pub nodup : NodupKeys s
  pub keyed : IsKeyed s

insert-IsKeyed :
    (c : CapabilityDescriptor) (s : CapabilityStore)
    → IsKeyed s
    → IsKeyed (insert c.capability_id c s)
unfolding insert
insert-IsKeyed c [] h = (refl, tt)
insert-IsKeyed c ((j, w) ∷ s) h = ground (arith, eq_iff j c.capability_id, insert-IsKeyed c s)

erase-IsKeyed : (k : String) (s : CapabilityStore) → IsKeyed s → IsKeyed (erase k s)
unfolding erase
erase-IsKeyed k [] h = tt
erase-IsKeyed k ((j, w) ∷ s) h = ground (arith, erase-IsKeyed k s)

-- Putting a descriptor into a valid store leaves it valid: no id twice, each descriptor under its own.
pub put-IsValid : (c : CapabilityDescriptor) (s : CapabilityStore) → IsValid s → IsValid (put c s)
unfolding put
put-IsValid c s v = record {
  nodup = insert-NodupKeys c.capability_id c s v.nodup;
  keyed = insert-IsKeyed c s v.keyed;
}

-- Deleting from a valid store leaves it valid, whether or not the id was there.
pub delete-IsValid : (k : String) (s : CapabilityStore) → IsValid s → IsValid (delete k s).0
unfolding delete
delete-IsValid k s v = elim (Bool-cases (is_some (lookup k s))) [
  | inl e ↦ rw e (record { nodup = erase-NodupKeys k s v.nodup; keyed = erase-IsKeyed k s v.keyed })
  | inr e ↦ rw e v
]

-- After `put` the store gives the descriptor back under its id, and under any other id what it
-- gave before.
pub get-put :
    (c : CapabilityDescriptor) (s : CapabilityStore) (k : String)
    → get k (put c s) ≡ (if c.capability_id == k then some c else get k s)
unfolding get put
get-put c s k = lookup-insert c.capability_id k c s

-- On a valid store `delete` reports whether the id was there, and removes that id and no other.
pub get-delete :
    (k : String) (s : CapabilityStore) (j : String)
    → IsValid s
    → ((delete k s).1 ≡ is_some (get k s))
      × (get j (delete k s).0 ≡ (if k == j then none else get j s))
unfolding get delete
get-delete k s j v = elim (Option-cases (lookup k s)) [
  | inl e ↦ rw e (refl, absent e)
  | inr (c, e) ↦ rw e (refl, lookup-erase k j s v.nodup)
]
  where
    absent : lookup k s ≡ none → lookup j s ≡ (if k == j then none else lookup j s)
    absent e = ground (arith, eq_iff k j)

-- Of two entries of a valid store with one key the first is read.
lookup-In :
    (c : CapabilityDescriptor) (k : String) (s : CapabilityStore)
    → lookup k s ≡ some c
    → In c (values s)
unfolding lookup
lookup-In c k [] h = cc
lookup-In c k ((j, w) ∷ s) h = ground (arith, lookup-In c k s)

lookup-In_key :
    (k : String) (c : CapabilityDescriptor) (s : CapabilityStore)
    → IsKeyed s
    → In c (values s)
    → lookup c.capability_id s ≢ none
unfolding lookup
lookup-In_key k c [] h m = absurd m
lookup-In_key k c ((j, w) ∷ s) h m = ground (arith, lookup-In_key k c s, eq_iff j c.capability_id)

In-lookup :
    (c : CapabilityDescriptor) (s : CapabilityStore)
    → NodupKeys s
    → IsKeyed s
    → In c (values s)
    → lookup c.capability_id s ≡ some c
unfolding lookup
In-lookup c [] u k m = absurd m
In-lookup c ((j, w) ∷ s) u k m =
    ground (arith, In-lookup c s, lookup-In_key j c s, eq_iff j c.capability_id)

-- The listing of a valid store holds exactly the descriptors that `get` finds under their ids.
pub In-list_all :
    (c : CapabilityDescriptor) (s : CapabilityStore)
    → IsValid s
    → In c (list_all s) ↔ (get c.capability_id s ≡ some c)
unfolding list_all get
In-list_all c s v = (In-lookup c s v.nodup v.keyed, lookup-In c c.capability_id s)

length-values {ℓ} : {V : Type ℓ} (d : Dict V) → length (values d) ≡ length d
length-values [] = refl
length-values ((k, v) ∷ d) = ap suc (length-values d)

pub length-list_all : (s : CapabilityStore) → length (list_all s) ≡ count s
unfolding list_all count
length-list_all s = length-values s

pub clear-IsValid : (s : CapabilityStore) → IsValid (clear s)
unfolding clear
clear-IsValid s = record { nodup = tt; keyed = tt }

-- `delete` finds its id, or changes nothing.
pub delete-cases :
    (k : String) (s : CapabilityStore) → ((delete k s).1 ≡ true) ⊎ (delete k s ≡ (s, false))
unfolding delete
delete-cases k s = elim (Bool-cases (is_some (lookup k s))) [
  | inl e ↦ inl (rw e)
  | inr e ↦ inr (rw e)
]
