-- ===== src/HeapMem/Safety.antt =====
-- The block that the object of HeapMem.cpp holds, and the blocks that are allocated.
use zombie_finder.Base.{
  ℕ, ◌≡◌, ◌≢◌, true, false, List, [], ◌∷◌, inl, inr, arith, ◌==◌, Bool-cases, if◌then◌else◌, ◌⊎◌,
  ◌&&◌, not,
}
use zombie_finder.ErrorText.{FormatMessage}
use zombie_finder.Handles.{
  Trace, Fresh, Accounted, Safe, open-Safe, close-Safe, NoTable, opened, closed,
}
use zombie_finder.HeapMem.{HeapMem, HeapCalls, dealloc, alloc_block, alloc}

-- What is allocated: the block, if there is one.
abbrev pub held : HeapMem → List ℕ
held m = if m.mem == 0 then [] else m.mem ∷ []

-- A null pointer has size 0.
abbrev pub IsSized : HeapMem → Type 0
IsSized m = m.mem ≡ 0 → m.size ≡ 0

-- `HeapFree` does not fail on a block of the heap.
abbrev pub FreeSucceeds : HeapCalls → Type 0
FreeSucceeds calls = (heap block : ℕ) → calls.free heap block ≡ true

dealloc-Safe :
    (format_message : FormatMessage) (calls : HeapCalls) (m : HeapMem) (t : Trace)
    → FreeSucceeds calls
    → Safe t (held m) NoTable
    → let r = dealloc format_message calls m t in Safe r.trace (held r.object) NoTable
unfolding dealloc
dealloc-Safe format_message calls m t free s = elim (Bool-cases (m.mem == 0)) [
  | inl e ↦ rw (e, dealloc) s
  | inr e ↦ elim (Bool-cases (calls.heap_to_free == 0)) [
    | inl h ↦ rw (e, h, dealloc) s
    | inr h ↦ rw (e, h, free calls.heap_to_free m.mem, dealloc) (close-Safe m.mem (rw e at s))
  ]
]

dealloc-empty :
    (format_message : FormatMessage) (calls : HeapCalls) (m : HeapMem) (t : Trace)
    → let r = dealloc format_message calls m t in r.success ≡ true → r.object.mem ≡ 0
unfolding dealloc
dealloc-empty format_message calls m t ok = ground arith

held-Safe :
    {t : Trace} (block n_bytes : ℕ)
    → (block == 0) ≡ false
    → Safe t (block ∷ []) NoTable
    → Safe t (held (record { mem = block; size = n_bytes })) NoTable
held-Safe block n_bytes e s = rw e s

alloc_block-Safe :
    (format_message : FormatMessage) (calls : HeapCalls) (n_bytes : ℕ) (m : HeapMem) (t : Trace)
    → m.mem ≡ 0
    → Safe t (held m) NoTable
    → let r = alloc_block format_message calls n_bytes m t in Safe r.trace (held r.object) NoTable
unfolding alloc_block
alloc_block-Safe format_message calls n_bytes m t null s =
    let block = calls.alloc calls.heap_to_alloc n_bytes in
    elim (Bool-cases (calls.heap_to_alloc == 0)) [
      | inl h ↦ rw (h, alloc_block) s
      | inr h ↦ elim (Bool-cases (block == 0)) [
        | inl e ↦ rw (h, e, alloc_block) (rw null at s)
        | inr e ↦
            rw (h, e, alloc_block) (held-Safe block n_bytes e (open-Safe block (rw null at s)))
      ]
    ]

alloc-Safe :
    (format_message : FormatMessage) (calls : HeapCalls) (n_bytes : ℕ) (m : HeapMem) (t : Trace)
    → FreeSucceeds calls
    → Accounted t (held m) NoTable
    → let r = alloc format_message calls n_bytes m t in
      Fresh r.trace → Accounted r.trace (held r.object) NoTable
unfolding alloc
alloc-Safe format_message calls n_bytes m t free s =
    let d = dealloc format_message calls m t in
    let freed = dealloc-Safe format_message calls m t free (λ _. s) in
    elim (Bool-cases d.success) [
      | inl ok ↦
          rw (ok, alloc)
            (alloc_block-Safe format_message calls n_bytes d.object d.trace
              (dealloc-empty format_message calls m t ok) freed)
      | inr failed ↦ rw (failed, alloc) freed
    ]

-- The trace of a call of `Alloc` that leaves the object with a block, or with none.
abbrev pub replaced : HeapMem → HeapMem → Trace → Trace
replaced before after t =
    let freed : Trace = if before.mem == 0 then t else closed before.mem ∷ t in
    if after.mem == 0 then freed else opened after.mem ∷ freed

alloc-replaced :
    (format_message : FormatMessage) (calls : HeapCalls) (n_bytes : ℕ) (m : HeapMem) (t : Trace)
    → FreeSucceeds calls
    → let r = alloc format_message calls n_bytes m t in
      r.trace ≡ (if not (m.mem == 0) && calls.heap_to_free == 0 then t else replaced m r.object t)
unfolding alloc dealloc alloc_block
alloc-replaced format_message calls n_bytes m t free = ground (arith, free calls.heap_to_free m.mem)

-- Where the object holds the one block that is allocated, or none is, and `HeapFree` does not fail
-- on a block of the heap, and each new block differs from those that are allocated: after `Alloc` the
-- block that is allocated, if any, is the one that the object holds. If the object held a block and
-- the heap is not found, nothing is freed or allocated; otherwise the block that the object held, if
-- any, has been freed, once, before the one that it holds then, if any, was allocated, once.
pub alloc_frees_and_holds :
    (format_message : FormatMessage) (calls : HeapCalls) (n_bytes : ℕ) (m : HeapMem) (t : Trace)
    → FreeSucceeds calls
    → Accounted t (held m) NoTable
    → Fresh (alloc format_message calls n_bytes m t).trace
    → let r = alloc format_message calls n_bytes m t in
      Accounted r.trace (held r.object) NoTable
      × (r.trace
          ≡ (if not (m.mem == 0) && calls.heap_to_free == 0 then t else replaced m r.object t))
alloc_frees_and_holds format_message calls n_bytes m t free s fresh = (
  alloc-Safe format_message calls n_bytes m t free s fresh,
  alloc-replaced format_message calls n_bytes m t free,
)

-- For an object whose size is 0 where its pointer is null: `Alloc` keeps that; where it succeeds the
-- pointer is not null and the size is the one asked for; where it fails the pointer is null, or the
-- heap was not found and the object is what it was.
alloc_result :
    (format_message : FormatMessage) (calls : HeapCalls) (n_bytes : ℕ) (m : HeapMem) (t : Trace)
    → IsSized m
    → let r = alloc format_message calls n_bytes m t in
      IsSized r.object
      × (r.success ≡ true → (r.object.mem ≢ 0) × (r.object.size ≡ n_bytes))
      × (r.success ≡ false → (r.object.mem ≡ 0) ⊎ ((r.object ≡ m) × (calls.heap_to_free ≡ 0)))
unfolding alloc dealloc alloc_block
alloc_result format_message calls n_bytes m t sized = (ground arith, ground arith, ground arith)

pub alloc-success :
    (format_message : FormatMessage) (calls : HeapCalls) (n_bytes : ℕ) (m : HeapMem) (t : Trace)
    → let r = alloc format_message calls n_bytes m t in r.success ≡ true → r.object.mem ≢ 0
unfolding alloc dealloc alloc_block
alloc-success format_message calls n_bytes m t ok = ground arith
