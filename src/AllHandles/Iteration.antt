-- ===== src/AllHandles/Iteration.antt =====
-- The loop over `HandleInfo(ix)` for `ix` below `NumberOfHandles()` (AllHandlesSystemwide.cpp).
use zombie_finder.Base.{
  ℕ, suc, ◌≡◌, ◌≢◌, refl, none, some, List, [], ◌∷◌, ◌++◌, arith, leb, if◌then◌else◌, length,
  length-append, get_elem?, append_assoc, ap, ◌∙◌, sym,
}
use zombie_finder.AllHandles.{
  HandleEntry, AllHandles, value, number_of_handles, handle_info, for_each_handle, visit_info,
}

-- What the loop body does to each entry in turn.
abbrev pub run_over {ℓ} : {S : Type ℓ} → (S → HandleEntry → S) → S → List HandleEntry → S
run_over body s [] = s
run_over body s (e ∷ rest) = run_over body (body s e) rest

get_elem?-append :
    (before after : List HandleEntry) (e : HandleEntry)
    → get_elem? (before ++ e ∷ after) (length before) ≡ some e
get_elem?-append [] after e = refl
get_elem?-append (x ∷ before) after e = get_elem?-append before after e

-- The object holds these entries.
pub record Holds (a : AllHandles) (entries : List HandleEntry) : Type 0 where
  pub block : a.mem.mem ≢ 0
  pub filled : a.contents ≡ some entries

-- Within the bounds `HandleInfo` gives the entry, beyond them the null pointer.
handle_info-get_elem? :
    (a : AllHandles) (entries : List HandleEntry) (ix : ℕ)
    → Holds a entries
    → handle_info a ix ≡ value (if leb (length entries) ix then none else get_elem? entries ix)
unfolding handle_info
handle_info-get_elem? a entries ix h = ground (arith, h.block, h.filled)

-- The index of an entry is in bounds.
reads :
    (before after : List HandleEntry) (e : HandleEntry)
    → value (
        if leb (length (before ++ e ∷ after)) (length before)
        then none
        else get_elem? (before ++ e ∷ after) (length before))
      ≡ value (some e)
reads before after e =
    ground (arith, length-append before (e ∷ after), get_elem?-append before after e)

pub handle_info-here :
    (a : AllHandles) (before after : List HandleEntry) (e : HandleEntry)
    → Holds a (before ++ e ∷ after)
    → handle_info a (length before) ≡ value (some e)
handle_info-here a before after e h =
    handle_info-get_elem? a (before ++ e ∷ after) (length before) h ∙ reads before after e

for_each-from :
    {S : Type 0} (a : AllHandles) (body : S → HandleEntry → S) (before after : List HandleEntry)
    (s : S)
    → Holds a (before ++ after)
    → for_each_handle a body (length after) (length before) s ≡ run_over body s after
unfolding for_each_handle
for_each-from a body before [] s h = refl
for_each-from a body before (e ∷ after) s h =
    let extended = before ++ e ∷ [] in
    let here : handle_info a (length before) ≡ value (some e) =
      handle_info-here a before after e h in
    let longer : length extended ≡ suc (length before) =
      length-append before (e ∷ []) ∙ omega arith in
    ap (λ i. for_each_handle a body (length after) (suc (length before)) (visit_info body s i)) here
    ∙ ap (λ n. for_each_handle a body (length after) n (body s e)) (sym longer)
    ∙ for_each-from a body extended after (body s e) (record {
      block = h.block;
      filled = h.filled ∙ ap some (sym (append_assoc before _ after));
    })

-- The entries that `Update` fetched are visited in their order, each of them once.
pub for_each_handle-run_over :
    {S : Type 0} (a : AllHandles) (body : S → HandleEntry → S) (entries : List HandleEntry) (s : S)
    → Holds a entries
    → (number_of_handles a ≡ value (length entries))
      × (for_each_handle a body (length entries) 0 s ≡ run_over body s entries)
unfolding number_of_handles
for_each_handle-run_over a body entries s h =
    (ground (arith, h.block, h.filled), for_each-from a body [] entries s h)
