-- ===== src/WsClient/Handlers.antt =====
-- `on` and `onmessage` of client/src/lib/ws-client.ts: the handlers of each type of message. A
-- handler is a number. A `Map` is a list of entries in the order of insertion.
use mathlib.Core.Bool.{false≢true}
use marc_comparator.Base.{
  ℕ, ◌≡◌, refl, Bool, true, false, not, ◌&&◌, ◌||◌, Option, none, some, List, [], ◌∷◌, ◌++◌, nat_eq,
  ◌==◌, eq_iff, eq_refl, if◌then◌else◌, arith, Bool-cases, inl, inr, sym, ap, ◌∙◌,
}
use marc_comparator.Base.Sets.{includes, add, delete, includes-add, includes-delete}
use marc_comparator.Base.Text.{Text, text_eq}

abbrev pub Handlers : Type 0
Handlers = List (Text × List ℕ)

-- `handlers.get(type)`.
unfoldable pub get : Handlers → Text → Option (List ℕ)
get [] type = none
get ((key, set) ∷ rest) type = if key == type then some set else get rest type

-- The set of a type that has one is changed in place.
unfoldable pub update : (List ℕ → List ℕ) → Handlers → Text → Handlers
update f [] type = []
update f ((key, set) ∷ rest) type =
    if key == type then (key, f set) ∷ rest else (key, set) ∷ update f rest type

unfoldable pub has : Handlers → Text → Bool
has [] type = false
has ((key, set) ∷ rest) type = key == type || has rest type

unfoldable pub on : Handlers → Text → ℕ → Handlers
unfolding has update
on handlers type handler =
    let present = if has handlers type then handlers else handlers ++ (type, []) ∷ [] in
    update (λ set. add set handler) present type

-- The function that `on` returns.
unfoldable pub unsubscribe : Handlers → Text → ℕ → Handlers
unfolding update
unsubscribe handlers type handler = update (λ set. delete set handler) handlers type

-- The handlers that a message of the type calls, in order; a message that is no JSON, or has no
-- type, is `none` and calls none.
unfoldable pub on_message : Handlers → Option Text → List ℕ
unfolding get
on_message handlers none = []
on_message handlers (some type) = elim (get handlers type) [ none ↦ [] | some set ↦ set ]

unfoldable pub called : Handlers → Text → ℕ → Bool
called handlers type h = includes (on_message handlers (some type)) h

called-nil : (other : Text) (g : ℕ) → called [] other g ≡ false
unfolding called on_message get includes
called-nil other g = refl

called-cons :
    (key other : Text) (set : List ℕ) (rest : Handlers) (g : ℕ)
    → called ((key, set) ∷ rest) other g
      ≡ (if key == other then includes set g else called rest other g)
unfolding called on_message get
called-cons key other set rest g = ground arith

-- One of the two texts is not `type`, which is not the other one.
apart :
    (key type other : Text) → (key == type) ≡ false → ((key == other) && (type == other)) ≡ false
apart key type other differ = elim (Bool-cases (key == other)) [
  | inr unlike ↦ rw unlike refl
  | inl k ↦ elim (Bool-cases (type == other)) [
    | inr unlike ↦ rw unlike (ground arith)
    | inl t ↦ absurd (
        false≢true (
          sym differ
          ∙ (eq_iff key type).1 ((eq_iff key other).0 k ∙ sym ((eq_iff type other).0 t))))
  ]
]

apart_or :
    (k t x y z : Bool)
    → (k && t) ≡ false
    → (if k then x else (y || t && z)) ≡ ((if k then x else y) || t && z)
apart_or k t x y z h = ground arith

apart_and :
    (k t x y z : Bool)
    → (k && t) ≡ false
    → (if k then x else (y && not (t && z))) ≡ ((if k then x else y) && not (t && z))
apart_and k t x y z h = ground arith

or_and : (t x y z : Bool) → (if t then (x || z) else y) ≡ ((if t then x else y) || t && z)
or_and t x y z = ground arith

and_not :
    (t x y z : Bool) → (if t then (x && not z) else y) ≡ ((if t then x else y) && not (t && z))
and_not t x y z = ground arith

called-update-add :
    (hs : Handlers) (type other : Text) (h g : ℕ)
    → has hs type ≡ true
    → called (update (λ set. add set h) hs type) other g
      ≡ (called hs other g || (type == other && h == g))
unfolding update has
called-update-add [] type other h g p = absurd (false≢true p)
called-update-add ((key, set) ∷ rest) type other h g p = elim (Bool-cases (key == type)) [
  | inl same ↦
      rw
        (
          same,
          called-cons key other (add set h) rest g,
          called-cons key other set rest g,
          (eq_iff key type).0 same,
          includes-add set h g,
        )
        (or_and (type == other) (includes set g) (called rest other g) (h == g))
  | inr differ ↦
      rw
        (
          differ,
          called-cons key other set (update (λ set. add set h) rest type) g,
          called-cons key other set rest g,
          called-update-add rest type other h g (ground (arith, p, differ)),
        )
        (apart_or (key == other) (type == other) (includes set g) (called rest other g) (h == g)
          (apart key type other differ))
]

called-update-delete :
    (hs : Handlers) (type other : Text) (h g : ℕ)
    → called (update (λ set. delete set h) hs type) other g
      ≡ (called hs other g && not (type == other && h == g))
unfolding update
called-update-delete [] type other h g = rw (called-nil other g) refl
called-update-delete ((key, set) ∷ rest) type other h g = elim (Bool-cases (key == type)) [
  | inl same ↦
      rw
        (
          same,
          called-cons key other (delete set h) rest g,
          called-cons key other set rest g,
          (eq_iff key type).0 same,
          includes-delete set h g,
        )
        (and_not (type == other) (includes set g) (called rest other g) (h == g))
  | inr differ ↦
      rw
        (
          differ,
          called-cons key other set (update (λ set. delete set h) rest type) g,
          called-cons key other set rest g,
          called-update-delete rest type other h g,
        )
        (apart_and (key == other) (type == other) (includes set g) (called rest other g) (h == g)
          (apart key type other differ))
]

has-append : (hs : Handlers) (type : Text) → has (hs ++ (type, []) ∷ []) type ≡ true
unfolding has
has-append [] type = rw (eq_refl type) refl
has-append ((key, set) ∷ rest) type = rw (has-append rest type) (ground arith)

called-append :
    (hs : Handlers) (type other : Text) (g : ℕ)
    → called (hs ++ (type, []) ∷ []) other g ≡ called hs other g
unfolding includes
called-append [] type other g =
    rw (called-cons type other [] [] g, called-nil other g) (ground arith)
called-append ((key, set) ∷ rest) type other g =
    rw
      (
        called-cons key other set (rest ++ (type, []) ∷ []) g,
        called-cons key other set rest g,
        called-append rest type other g,
      )
      refl

-- A handler that is registered for a type is called for the messages of that type from then on,
-- and every other handler and type is as before.
pub called-on :
    (hs : Handlers) (type other : Text) (h g : ℕ)
    → called (on hs type h) other g ≡ (called hs other g || (type == other && h == g))
unfolding on
called-on hs type other h g = elim (Bool-cases (has hs type)) [
  | inl known ↦ rw known (called-update-add hs type other h g known)
  | inr unknown ↦ rw unknown (
      called-update-add (hs ++ (type, []) ∷ []) type other h g (has-append hs type)
      ∙ ap (λ b. b || (type == other && h == g)) (called-append hs type other g))
]

-- A handler that is taken off a type is called for no message of that type, and every other
-- handler and type is as before.
pub called-unsubscribe :
    (hs : Handlers) (type other : Text) (h g : ℕ)
    → called (unsubscribe hs type h) other g ≡ (called hs other g && not (type == other && h == g))
unfolding unsubscribe
called-unsubscribe hs type other h g = called-update-delete hs type other h g
