-- ===== src/Clarity/InOrder.antt =====
-- Filling the map of a tuple, in clarity_value/deserialize.rs, in the order of its keys.
use stacks_encoding_native_j.Prelude.{◌≡◌, refl, ap}
use stacks_encoding_native_j.Clarity.Types.{
  Fields, ClarityName, ClarityValue, insert, KeyOrder, compare_keys,
}
use stacks_encoding_native_j.Clarity.Serialize.{AllAfter}

-- Inserting behind all keys that are there.
abbrev pub AllBefore : Fields → ClarityName → Type 0
AllBefore Fields.no_fields key = Unit {0}
AllBefore (Fields.field k v fs) key = (compare_keys key k ≡ KeyOrder.after) × AllBefore fs key

abbrev pub append_fields : Fields → Fields → Fields
append_fields Fields.no_fields gs = gs
append_fields (Fields.field k v fs) gs = Fields.field k v (append_fields fs gs)

pub insert_last :
    (key : ClarityName) (v : ClarityValue) (fs : Fields)
    → AllBefore fs key
    → insert key v fs ≡ append_fields fs (Fields.field key v Fields.no_fields)
unfolding insert
insert_last key v Fields.no_fields h = refl
insert_last key v (Fields.field k u fs) h =
    rw (h.0, insert) (ap (Fields.field k u) (insert_last key v fs h.1))

pub append_fields_assoc :
    (fs : Fields) (k : ClarityName) (v : ClarityValue) (gs : Fields)
    → append_fields (append_fields fs (Fields.field k v Fields.no_fields)) gs
      ≡ append_fields fs (Fields.field k v gs)
append_fields_assoc Fields.no_fields k v gs = refl
append_fields_assoc (Fields.field j u fs) k v gs =
    ap (Fields.field j u) (append_fields_assoc fs k v gs)

pub append_fields-nil : (fs : Fields) → append_fields fs Fields.no_fields ≡ fs
append_fields-nil Fields.no_fields = refl
append_fields-nil (Fields.field k v fs) = ap (Fields.field k v) (append_fields-nil fs)

-- All keys of `gs` come behind all keys of `fs`.
abbrev pub Precede : Fields → Fields → Type 0
Precede fs Fields.no_fields = Unit {0}
Precede fs (Fields.field k v gs) = AllBefore fs k × Precede fs gs

AllBefore-append :
    (fs : Fields) (k : ClarityName) (v : ClarityValue) (key : ClarityName)
    → AllBefore fs key
    → compare_keys key k ≡ KeyOrder.after
    → AllBefore (append_fields fs (Fields.field k v Fields.no_fields)) key
AllBefore-append Fields.no_fields k v key h e = (e, tt)
AllBefore-append (Fields.field j u fs) k v key h e = (h.0, AllBefore-append fs k v key h.1 e)

pub Precede-append :
    (fs : Fields) (k : ClarityName) (v : ClarityValue) (gs : Fields)
    → Precede fs gs
    → AllAfter k gs
    → Precede (append_fields fs (Fields.field k v Fields.no_fields)) gs
Precede-append fs k v Fields.no_fields h a = tt
Precede-append fs k v (Fields.field j u gs) h a =
    (AllBefore-append fs k v j h.0 a.0, Precede-append fs k v gs h.1 a.1)

pub Precede-empty : (gs : Fields) → Precede Fields.no_fields gs
Precede-empty Fields.no_fields = tt
Precede-empty (Fields.field k v gs) = (tt, Precede-empty gs)
