-- ===== src/AllHandles.antt =====
-- NtInternal.h and the class of AllHandlesSystemwide.h and AllHandlesSystemwide.cpp: the handles
-- of all processes. The calls of `NtQuerySystemInformation` are answered by a list, one entry for
-- each round of the loop; where the list ends the loop has not ended, and the result is `none`.
pub mod Dump
pub mod Listed
pub mod Query
pub mod Iteration
use zombie_finder.Base.{
  ℕ, zero, suc, ◌+◌, ◌-◌, ◌/◌, ◌%◌, ◌^◌, ◌++◌, Bool, true, false, not, Option, none, some, List, [],
  ◌∷◌, ltb, leb, ◌==◌, if◌then◌else◌, get_elem?, length,
}
use zombie_finder.Base.Text.{Text, codes, decimal}
use zombie_finder.ErrorText.{FormatMessage, sys_error_message_with_code}
use zombie_finder.Handles.{Trace}
use zombie_finder.HeapMem.{HeapMem, HeapCalls, HeapResult, empty_heap_mem, alloc, dealloc}

-- SYSTEM_HANDLE_TABLE_ENTRY_INFO_EX.
pub record HandleEntry : Type 0 where
  pub object : ℕ
  pub unique_process_id : ℕ
  pub handle_value : ℕ
  pub granted_access : ℕ
  pub creator_back_trace_index : ℕ
  pub object_type_index : ℕ
  pub handle_attributes : ℕ

-- The block, and the SYSTEM_HANDLE_INFORMATION_EX that a call wrote to it: `NumberOfHandles` is the
-- number of its entries. `none` stands for a block that no call has filled.
pub record AllHandles : Type 0 where
  pub mem : HeapMem
  pub contents : Option (List HandleEntry)

abbrev pub no_handle_table : AllHandles
no_handle_table = record { mem = empty_heap_mem; contents = none }

-- One round: what the heap answers, and the status, the length and the entries of the query for a
-- buffer of a size.
pub record QueryAnswer : Type 0 where
  -- `Clear()` and `m_Mem.Alloc`, which has nothing left to free.
  pub clear_calls : HeapCalls
  pub alloc_calls : HeapCalls
  pub status : ℕ → ℕ
  pub return_length : ℕ → ℕ
  pub entries : List HandleEntry

pub record SystemAnswer : Type 0 where
  pub ntdll_found : Bool
  pub function_found : Bool
  pub first_clear_calls : HeapCalls
  pub first_status : ℕ
  pub first_return_length : ℕ
  pub rounds : List QueryAnswer

abbrev pub status_success : ℕ
status_success = 0

abbrev pub status_info_length_mismatch : ℕ
status_info_length_mismatch = 0xc0000004

pub record Updated : Type 0 where
  pub success : Bool
  pub object : AllHandles
  pub error_info : Text
  pub trace : Trace

-- `Clear()`, whose errors nothing reads.
unfoldable pub clear : FormatMessage → HeapCalls → AllHandles → Trace → AllHandles × Trace
clear format_message calls a t =
    let r = dealloc format_message calls a.mem t in
    (record { mem = r.object; contents = if r.object.mem == 0 then none else a.contents }, r.trace)

-- `returnLength + (returnLength / 4)` in a ULONG.
unfoldable pub buffer_size : ℕ → ℕ
buffer_size return_length = (return_length + return_length / 4) % 2 ^ 32

unfoldable pub second_call_error : FormatMessage → ℕ → ℕ → ℕ → Text
second_call_error format_message status return_length size =
    codes "NtQuerySystemInformation second call failed: "
    ++ sys_error_message_with_code format_message status true
    ++ codes "\nreturnLength = "
    ++ decimal return_length
    ++ codes "\nhad allocated  "
    ++ decimal size

-- One round of the loop after the overflow check: `inl` is a result, `inr` the state and the length
-- for the next round.
pub data Round : Type 0 where
  finished : Updated → Round
  again : AllHandles → ℕ → Trace → Round

unfoldable pub query_round : FormatMessage → QueryAnswer → ℕ → AllHandles → Trace → Round
query_round format_message q size a t =
    let r = alloc format_message q.alloc_calls size a.mem t in
    let status = q.status size in
    if not r.success
    then finished (record {
      success = false;
      object = record { mem = r.object; contents = if r.object.mem == 0 then none else a.contents };
      error_info = r.error_info;
      trace = r.trace;
    })
    else if status == status_success
    then finished (record {
      success = true;
      object = record { mem = r.object; contents = some q.entries };
      error_info = [];
      trace = r.trace;
    })
    else if status == status_info_length_mismatch
    then again (record { mem = r.object; contents = none }) (q.return_length size) r.trace
    else finished (record {
      success = false;
      object = record { mem = r.object; contents = none };
      error_info = second_call_error format_message status (q.return_length size) size;
      trace = r.trace;
    })

-- One round of the loop from its start.
unfoldable pub round : FormatMessage → QueryAnswer → ℕ → AllHandles → Trace → Round
unfolding clear buffer_size query_round
round format_message q return_length a t =
    let (a', t') = clear format_message q.clear_calls a t in
    let size = buffer_size return_length in
    if ltb size return_length
    then finished (record {
      success = false;
      object = a';
      error_info = codes "Unable to allocate memory: integer overflow";
      trace = t';
    })
    else query_round format_message q size a' t'

unfoldable pub query_loop :
    FormatMessage → List QueryAnswer → ℕ → AllHandles → Trace → Option Updated
query_loop format_message [] return_length a t = none
query_loop format_message (q ∷ rest) return_length a t =
    elim (round format_message q return_length a t) [
      | finished u ↦ some u
      | again a' return_length' t' ↦ query_loop format_message rest return_length' a' t'
    ]

-- A call that stops before the loop.
unfoldable pub refused_update : AllHandles → Text → Trace → Updated
refused_update a error_info t = record {
  success = false;
  object = a;
  error_info = error_info;
  trace = t;
}

unfoldable pub update : FormatMessage → SystemAnswer → AllHandles → Trace → Option Updated
unfolding clear query_loop refused_update
update format_message s a t =
    let (a', t') = clear format_message s.first_clear_calls a t in
    if not s.ntdll_found
    then some (refused_update a' (codes "Couldn't get module ntdll.dll") t')
    else if not s.function_found
    then some (refused_update a' (codes "Couldn't get function NtQuerySystemInformation") t')
    else if not (s.first_status == status_info_length_mismatch)
    then some (
        refused_update a'
          (codes "NtQuerySystemInformation first call failed: "
            ++ sys_error_message_with_code format_message s.first_status true)
          t')
    else query_loop format_message s.rounds s.first_return_length a' t'

-- A read of the block: `uninitialized` where no call has filled it. The loop
-- below never meets it: `NumberOfHandles` would be read from the same memory first.
pub data Read {ℓ} (A : Type ℓ) : Type ℓ where
  uninitialized : Read A
  value : A → Read A

unfoldable pub number_of_handles : AllHandles → Read ℕ
number_of_handles a =
    if a.mem.mem == 0
    then value 0
    else elim a.contents [ none ↦ uninitialized | some entries ↦ value (length entries) ]

-- `none` is the null pointer.
unfoldable pub handle_info : AllHandles → ℕ → Read (Option HandleEntry)
handle_info a ix = if a.mem.mem == 0 then value none else elim a.contents [
  | none ↦ uninitialized
  | some entries ↦ if leb (length entries) ix then value none else value (get_elem? entries ix)
]

-- The body of such a loop, for what `HandleInfo` gives.
abbrev pub visit_info {ℓ} : {S : Type ℓ} → (S → HandleEntry → S) → S → Read (Option HandleEntry) → S
visit_info body s uninitialized = s
visit_info body s (value none) = s
visit_info body s (value (some entry)) = body s entry

-- `for (ix = 0; ix < numHandles; ++ix)` over `HandleInfo(ix)`, null pointers passed over: the
-- arguments are the rounds that are left, and `ix`.
unfoldable pub for_each_handle {ℓ} :
    {S : Type ℓ} → AllHandles → (S → HandleEntry → S) → ℕ → ℕ → S → S
for_each_handle a body zero ix s = s
for_each_handle a body (suc rounds) ix s =
    for_each_handle a body rounds (suc ix) (visit_info body s (handle_info a ix))
