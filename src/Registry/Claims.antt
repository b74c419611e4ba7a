-- ===== src/Registry/Claims.antt =====
-- What the entries claim about a name, without maps and without order.
use zonedns.Prelude.{
  ◌≡◌, ◌≢◌, refl, inl, inr, Bool, true, not, ◌&&◌, none, some, List, [], ◌∷◌, ◌++◌, Memᴰ, arith,
  ◌==◌, if◌then◌else◌, eq_iff, Bool-cases, Option-cases, mem-append_left, mem-append_right,
  mem-append_cases, subst,
}
use zonedns.Text.{Str, str_eq}
use zonedns.Registry.{Entry, normalize, entry_zone}

-- Some entry with a usable zone lists a spelling of the name, which is not empty.
pub record Claims (entries : List Entry) (name zone : Str) : Type 0 where
  pub entry : Entry
  pub listed : Memᴰ entry entries
  pub usable : entry_zone entry ≡ some zone
  pub spelling : Str
  pub spelled : Memᴰ spelling entry.dns_names
  pub same : normalize spelling ≡ name
  pub nonempty : name ≢ []

-- The same as lists: the zone, once for each of its spellings of the name.
unfoldable pub claims_in : Str → List Str → Str → List Str
claims_in zone [] name = []
claims_in zone (raw ∷ rest) name =
    let others = claims_in zone rest name in
    if normalize raw == name && not (name == []) then zone ∷ others else others

unfoldable pub claims_of : Entry → Str → List Str
unfolding claims_in
claims_of e name = elim (entry_zone e) [ none ↦ [] | some zone ↦ claims_in zone e.dns_names name ]

unfoldable pub zones_claimed : List Entry → Str → List Str
zones_claimed [] name = []
zones_claimed (e ∷ rest) name = claims_of e name ++ zones_claimed rest name

-- A spelling of the name among the names of an entry.
record Spelled (names : List Str) (name : Str) : Type 0 where
  spelling : Str
  spelled : Memᴰ spelling names
  same : normalize spelling ≡ name
  nonempty : name ≢ []

Spelled-cons :
    {names : List Str} {name : Str} (raw : Str) → Spelled names name → Spelled (raw ∷ names) name
Spelled-cons raw k = record {
  spelling = k.spelling;
  spelled = Memᴰ.tail k.spelled;
  same = k.same;
  nonempty = k.nonempty;
}

spells : Str → Str → Bool
spells raw name = normalize raw == name && not (name == [])

claims_in_sound :
    (zone : Str) (names : List Str) (name z : Str)
    → Memᴰ z (claims_in zone names name)
    → Spelled names name × (z ≡ zone)
unfolding claims_in spells
claims_in_sound zone [] name z m = elim m [ ]
claims_in_sound zone (raw ∷ rest) name z m = elim (Bool-cases (spells raw name)) [
  | inl e ↦ here e (rw (e, claims_in) at m) (claims_in_sound zone rest name z)
  | inr e ↦
      let (k, q) = claims_in_sound zone rest name z (rw (e, claims_in) at m) in
      (Spelled-cons raw k, q)
]
  where
    here :
        spells raw name ≡ true
        → Memᴰ z (zone ∷ claims_in zone rest name)
        → (Memᴰ z (claims_in zone rest name) → Spelled rest name × (z ≡ zone))
        → Spelled (raw ∷ rest) name × (z ≡ zone)
    here e (Memᴰ.head q) ih = (
      record {
        spelling = raw;
        spelled = Memᴰ.head refl;
        same = ground (arith, eq_iff (normalize raw) name);
        nonempty = ground (arith, eq_iff name []);
      },
      q,
    )
    here e (Memᴰ.tail k) ih = let (s, q) = ih k in (Spelled-cons raw s, q)

claims_in_complete :
    (zone : Str) (names : List Str) (name raw : Str)
    → Memᴰ raw names
    → normalize raw ≡ name
    → name ≢ []
    → Memᴰ zone (claims_in zone names name)
unfolding claims_in
claims_in_complete zone [] name raw m same ne = elim m [ ]
claims_in_complete zone (r ∷ rest) name raw (Memᴰ.head q) same ne =
    let e : (normalize r == name && not (name == [])) ≡ true =
      rw (← q) (ground (arith, eq_iff (normalize raw) name, eq_iff name [])) in
    rw (e, claims_in) (Memᴰ.head refl)
claims_in_complete zone (r ∷ rest) name raw (Memᴰ.tail m) same ne =
    let ih = claims_in_complete zone rest name raw m same ne in
    elim (Bool-cases (normalize r == name && not (name == []))) [
      | inl e ↦ rw (e, claims_in) (Memᴰ.tail ih)
      | inr e ↦ rw (e, claims_in) ih
    ]

claims_of_sound :
    (e : Entry) (name z : Str)
    → Memᴰ z (claims_of e name)
    → (entry_zone e ≡ some z) × Spelled e.dns_names name
unfolding claims_of
claims_of_sound e name z m = elim (Option-cases (entry_zone e)) [
  | inl q ↦ elim (rw (q, claims_of) at m) [ ]
  | inr (zone, q) ↦
      let (k, same) = claims_in_sound zone e.dns_names name z (rw (q, claims_of) at m) in
      (rw (q, same), k)
]

Claims-cons :
    {entries : List Entry} {name zone : Str} (e : Entry)
    → Claims entries name zone
    → Claims (e ∷ entries) name zone
Claims-cons e k = record {
  entry = k.entry;
  listed = Memᴰ.tail k.listed;
  usable = k.usable;
  spelling = k.spelling;
  spelled = k.spelled;
  same = k.same;
  nonempty = k.nonempty;
}

-- The lists hold exactly the claims.
pub Claims-mem :
    (entries : List Entry) (name zone : Str)
    → Memᴰ zone (zones_claimed entries name)
    → Claims entries name zone
unfolding zones_claimed
Claims-mem [] name zone m = elim m [ ]
Claims-mem (e ∷ rest) name zone m =
    elim (mem-append_cases (claims_of e name) (zones_claimed rest name) m) [
      | inl here ↦
          let (usable, k) = claims_of_sound e name zone here in
          record {
            entry = e;
            listed = Memᴰ.head refl;
            usable = usable;
            spelling = k.spelling;
            spelled = k.spelled;
            same = k.same;
            nonempty = k.nonempty;
          }
      | inr there ↦ Claims-cons e (Claims-mem rest name zone there)
    ]

mem_of_usable :
    (e : Entry) (name zone raw : Str)
    → entry_zone e ≡ some zone
    → Memᴰ raw e.dns_names
    → normalize raw ≡ name
    → name ≢ []
    → Memᴰ zone (claims_of e name)
unfolding claims_of
mem_of_usable e name zone raw usable m same ne =
    rw (usable, claims_of) (claims_in_complete zone e.dns_names name raw m same ne)

mem_of_listed :
    (entries : List Entry) (e : Entry) (name zone : Str)
    → Memᴰ e entries
    → Memᴰ zone (claims_of e name)
    → Memᴰ zone (zones_claimed entries name)
unfolding zones_claimed
mem_of_listed [] e name zone m k = elim m [ ]
mem_of_listed (x ∷ rest) e name zone (Memᴰ.head q) k =
    mem-append_left _ _ (subst (λ x. Memᴰ zone (claims_of x name)) q k)
mem_of_listed (x ∷ rest) e name zone (Memᴰ.tail m) k =
    mem-append_right _ _ (mem_of_listed rest e name zone m k)

pub mem-Claims :
    {entries : List Entry} {name zone : Str}
    → Claims entries name zone
    → Memᴰ zone (zones_claimed entries name)
mem-Claims {entries} {name} {zone} k =
    mem_of_listed entries k.entry name zone k.listed
      (mem_of_usable k.entry name zone k.spelling k.usable k.spelled k.same k.nonempty)
