-- ===== src/Notifications/Store.antt =====
-- The store keeps at most a hundred notifications, and at most one of a task and variant.
use marc_comparator.Base.{
  ℕ, zero, suc, ◌≡◌, ◌≤◌, refl, ap, ◌∙◌, Bool, false, ◌||◌, List, [], ◌∷◌, take, any, filter,
  length, if◌then◌else◌, arith, Bool-cases, inl, inr, length-take-le,
}
use marc_comparator.Base.Text.{Text, text_eq}
use marc_comparator.Notifications.{
  Entry, Notification, is_duplicate, add_notification, mark_all_read, unread_count, Event, notified,
  opened, run,
}

abbrev pub IsUnique : List Notification → Type 0
IsUnique [] = Unit
IsUnique (n ∷ ns) = (any (is_duplicate n.entry) ns ≡ false) × IsUnique ns

-- At most a hundred notifications, no two of the same task and variant.
pub record IsStore (ns : List Notification) : Type 0 where
  pub few : length ns ≤ 100
  pub unique : IsUnique ns

any-take :
    {A : Type 0} (p : A → Bool) (k : ℕ) (xs : List A) → any p xs ≡ false → any p (take k xs) ≡ false
unfolding any
any-take p zero xs h = refl
any-take p (suc k) [] h = refl
any-take p (suc k) (x ∷ xs) h =
    let rest = any-take p k xs (ground (arith, h)) in ground (arith, h, rest)

IsUnique-take : (k : ℕ) (ns : List Notification) → IsUnique ns → IsUnique (take k ns)
IsUnique-take zero ns u = tt
IsUnique-take (suc k) [] u = tt
IsUnique-take (suc k) (n ∷ ns) u =
    (any-take (is_duplicate n.entry) k ns u.0, IsUnique-take k ns u.1)

any-mark_all_read :
    (e : Entry) (ns : List Notification)
    → any (is_duplicate e) (mark_all_read ns) ≡ any (is_duplicate e) ns
unfolding any mark_all_read is_duplicate
any-mark_all_read e [] = refl
any-mark_all_read e (n ∷ ns) = ap (λ b. is_duplicate e n || b) (any-mark_all_read e ns)

IsUnique-mark_all_read : (ns : List Notification) → IsUnique ns → IsUnique (mark_all_read ns)
unfolding mark_all_read
IsUnique-mark_all_read [] u = tt
IsUnique-mark_all_read (n ∷ ns) u =
    (any-mark_all_read n.entry ns ∙ u.0, IsUnique-mark_all_read ns u.1)

length-mark_all_read : (ns : List Notification) → length (mark_all_read ns) ≡ length ns
unfolding mark_all_read
length-mark_all_read [] = refl
length-mark_all_read (n ∷ ns) = ap suc (length-mark_all_read ns)

IsStore-add_notification :
    (id : Text) (e : Entry) (ns : List Notification)
    → IsStore ns
    → IsStore (add_notification id e ns)
unfolding add_notification
IsStore-add_notification id e ns ok = elim (Bool-cases (any (is_duplicate e) ns)) [
  | inl old ↦ rw old ok
  | inr new ↦ rw new (record {
    few = length-take-le 100 (record { id = id; entry = e; is_read = false } ∷ ns);
    unique =
        IsUnique-take 100 (record { id = id; entry = e; is_read = false } ∷ ns) (new, ok.unique);
  })
]

-- Whatever is notified and however often the list is opened, the store holds at most a hundred
-- notifications, and no two of the same task and the same variant.
pub run-IsStore : (evs : List Event) (ns : List Notification) → IsStore ns → IsStore (run evs ns)
unfolding run
run-IsStore [] ns ok = ok
run-IsStore (notified id e ∷ evs) ns ok =
    run-IsStore evs (add_notification id e ns) (IsStore-add_notification id e ns ok)
run-IsStore (opened ∷ evs) ns ok = run-IsStore evs (mark_all_read ns) (record {
  few = rw (length-mark_all_read ns) ok.few;
  unique = IsUnique-mark_all_read ns ok.unique;
})

unread_count-take : (k : ℕ) (ns : List Notification) → unread_count (take k (mark_all_read ns)) ≡ 0
unfolding unread_count mark_all_read filter
unread_count-take zero ns = refl
unread_count-take (suc k) [] = refl
unread_count-take (suc k) (n ∷ ns) = unread_count-take k ns

unread_count-mark_all_read : (ns : List Notification) → unread_count (mark_all_read ns) ≡ 0
unfolding unread_count mark_all_read filter
unread_count-mark_all_read [] = refl
unread_count-mark_all_read (n ∷ ns) = unread_count-mark_all_read ns

unread_count-cons :
    (n : Notification) (ns : List Notification)
    → n.is_read ≡ false
    → unread_count (n ∷ ns) ≡ suc (unread_count ns)
unfolding unread_count filter
unread_count-cons n ns h = rw h refl

-- After the list was opened nothing is unread, and a further entry makes one notification unread
-- exactly when no notification of its task and variant is there already.
pub unread_count-opened :
    (id : Text) (e : Entry) (ns : List Notification)
    → (unread_count (mark_all_read ns) ≡ 0)
      × (unread_count (add_notification id e (mark_all_read ns))
          ≡ (if any (is_duplicate e) ns then 0 else 1))
unfolding add_notification
unread_count-opened id e ns = (
  unread_count-mark_all_read ns,
  rw (any-mark_all_read e ns) (elim (Bool-cases (any (is_duplicate e) ns)) [
    | inl old ↦ rw old (unread_count-mark_all_read ns)
    | inr new ↦ rw new (
        unread_count-cons (record { id = id; entry = e; is_read = false })
          (take 99 (mark_all_read ns)) refl
        ∙ ap suc (unread_count-take 99 ns))
  ]),
)
