-- ===== src/Interrupts/Handlers.antt =====
-- The rows of handlers: registering and unregistering.
use cardinal.Base.{
  ℕ, zero, suc, ◌+◌, ◌<◌, ◌≡◌, ◌≢◌, refl, ◌∙◌, ap, ◌==◌, if◌then◌else◌, none, some, List, [], ◌∷◌,
  get_or, set, length, ok, arith, Option-cases, inl, inr, ok->>=, get_or-set_self,
}
use cardinal.Interrupts.{
  Interrupts, fill_slot, clear_slots, interrupt_registerhandler, interrupt_unregisterhandler,
}
use cardinal.Interrupts.Allocate.{acquire_free, refused}

-- How often a handler stands in a row.
abbrev pub count : ℕ → List ℕ → ℕ
count h [] = 0
count h (x ∷ row) = (if x == h then 1 else 0) + count h row

fill_slot-none : (h : ℕ) (row : List ℕ) → fill_slot h row ≡ none → count 0 row ≡ 0
unfolding fill_slot
fill_slot-none h [] e = refl
fill_slot-none h (x ∷ row) e = ground (arith, fill_slot-none h row)

clear_slots-same : (h : ℕ) (row : List ℕ) → count h row ≡ 0 → clear_slots h row ≡ row
unfolding clear_slots
clear_slots-same h [] e = refl
clear_slots-same h (x ∷ row) e = ground (arith, clear_slots-same h row)

-- A handler that was not in the row is added once, and clearing it gives the row back.
clear_slots-fill_slot :
    (h : ℕ) (row row' : List ℕ)
    → h ≢ 0
    → count h row ≡ 0
    → fill_slot h row ≡ some row'
    → (clear_slots h row' ≡ row) × (count h row' ≡ 1)
unfolding clear_slots fill_slot
clear_slots-fill_slot h [] row' nonzero absent e = absurd (ground arith)
clear_slots-fill_slot h (x ∷ row) row' nonzero absent e = elim (Option-cases (fill_slot h row)) [
  | inl nothing ↦ ground (arith, clear_slots-same h row)
  | inr (rest, filled) ↦
      let (restored, once) = clear_slots-fill_slot h row rest nonzero (ground arith) filled in
      ground (arith, clear_slots-same h row)
]

set-get_or :
    (rows : List (List ℕ)) (i : ℕ) (row : List ℕ)
    → i < length rows
    → set (set rows i row) i (get_or rows i []) ≡ rows
set-get_or [] i row lt = refl
set-get_or (r ∷ rows) zero row lt = refl
set-get_or (r ∷ rows) (suc i) row lt = ap (λ t. r ∷ t) (set-get_or rows i row (omega arith))

register-released :
    (irq h : ℕ) (s : Interrupts) (row' : List ℕ)
    → s.lock ≡ 0
    → fill_slot h (get_or s.funcs irq []) ≡ some row'
    → interrupt_registerhandler irq h s ≡ ok (record s { funcs = set s.funcs irq row' })
unfolding interrupt_registerhandler
register-released irq h s row' free_lock filled =
    ok->>= _ (acquire_free s free_lock)
    ∙ rw filled (
        ap (λ (t : Interrupts). ok t)
          (refused (record s { funcs = set s.funcs irq row' }) free_lock))

unregister-released :
    (irq h : ℕ) (s : Interrupts)
    → s.lock ≡ 0
    → interrupt_unregisterhandler irq h s
      ≡ ok (record s { funcs = set s.funcs irq (clear_slots h (get_or s.funcs irq [])) })
unfolding interrupt_unregisterhandler
unregister-released irq h s free_lock =
    ok->>= _ (acquire_free s free_lock)
    ∙ ap (λ (t : Interrupts). ok t)
        (refused (record s { funcs = set s.funcs irq (clear_slots h (get_or s.funcs irq [])) })
          free_lock)

-- With the lock free, a handler that the vector does not have, and a free slot in the vector's
-- row, registering adds the handler once and leaves the lock free; unregistering it then gives
-- the state back.
pub register-unregister :
    (irq h : ℕ) (s : Interrupts)
    → s.lock ≡ 0
    → irq < length s.funcs
    → h ≢ 0
    → count h (get_or s.funcs irq []) ≡ 0
    → count 0 (get_or s.funcs irq []) ≢ 0
    → (s' : Interrupts) × (interrupt_registerhandler irq h s ≡ ok s')
      × (count h (get_or s'.funcs irq []) ≡ 1)
      × (s'.lock ≡ 0)
      × (interrupt_unregisterhandler irq h s' ≡ ok s)
register-unregister irq h s free_lock vector nonzero absent room =
    elim (Option-cases (fill_slot h (get_or s.funcs irq []))) [
      | inl full_row ↦ absurd (room (fill_slot-none h (get_or s.funcs irq []) full_row))
      | inr (row', filled) ↦
          let (restored, once) = clear_slots-fill_slot h _ row' nonzero absent filled in
          let reread = get_or-set_self s.funcs irq row' [] vector in
          (
            record s { funcs = set s.funcs irq row' },
            register-released irq h s row' free_lock filled,
            ap (count h) reread ∙ once,
            free_lock,
            unregister-released irq h _ free_lock
                ∙ ap (λ t. ok (record s { funcs = t }))
                    (ap (λ r. set (set s.funcs irq row') irq (clear_slots h r)) reread
                      ∙ ap (set (set s.funcs irq row') irq) restored
                      ∙ set-get_or s.funcs irq row' vector),
          )
    ]
