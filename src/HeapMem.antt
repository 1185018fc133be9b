-- ===== src/HeapMem.antt =====
-- HeapMem.h and HeapMem.cpp: one block of the process heap. A pointer is a number, 0 for null; the
-- trace holds the blocks that `HeapAlloc` gave (`opened`) and that `HeapFree` took back (`closed`).
-- `HeapCalls` is what the heap functions of Windows answer during one call.
pub mod Safety
use zombie_finder.Base.{ℕ, ◌++◌, Bool, true, false, List, [], ◌∷◌, ◌==◌, if◌then◌else◌}
use zombie_finder.Base.Text.{Text, codes, decimal}
use zombie_finder.ErrorText.{FormatMessage, sys_error_message_with_code}
use zombie_finder.Handles.{Trace, opened, closed}

pub record HeapMem : Type 0 where
  pub mem : ℕ
  pub size : ℕ

abbrev pub empty_heap_mem : HeapMem
empty_heap_mem = record { mem = 0; size = 0 }

pub record HeapCalls : Type 0 where
  -- `GetProcessHeap` when a block is freed, and when one is allocated.
  pub heap_to_free : ℕ
  pub heap_to_alloc : ℕ
  -- `HeapFree` and `HeapAlloc`, for a heap and a block, or a heap and a size.
  pub free : ℕ → ℕ → Bool
  pub alloc : ℕ → ℕ → ℕ
  -- `GetLastError` where the code asks for it.
  pub last_error : ℕ

-- What a method gives back.
pub record HeapResult : Type 0 where
  pub success : Bool
  pub object : HeapMem
  pub error_info : Text
  pub trace : Trace

-- The error text of `ProcessHeap`, where `GetProcessHeap` fails.
unfoldable pub process_heap_error : FormatMessage → ℕ → Text
process_heap_error format_message last_error =
    codes "GetProcessHeap failed: " ++ sys_error_message_with_code format_message last_error false

unfoldable pub dealloc : FormatMessage → HeapCalls → HeapMem → Trace → HeapResult
dealloc format_message calls m t =
    if m.mem == 0
    then record { success = true; object = m; error_info = []; trace = t }
    else if calls.heap_to_free == 0
    then record {
      success = false;
      object = m;
      error_info = process_heap_error format_message calls.last_error;
      trace = t;
    }
    else if calls.free calls.heap_to_free m.mem
    then record {
      success = true;
      object = empty_heap_mem;
      error_info = [];
      trace = closed m.mem ∷ t;
    }
    else record {
      success = false;
      object = empty_heap_mem;
      error_info =
          codes "HeapFree failed: "
          ++ sys_error_message_with_code format_message calls.last_error false;
      trace = t;
    }

-- `Alloc` behind the deallocation.
unfoldable pub alloc_block : FormatMessage → HeapCalls → ℕ → HeapMem → Trace → HeapResult
alloc_block format_message calls n_bytes m t =
    let block = calls.alloc calls.heap_to_alloc n_bytes in
    if calls.heap_to_alloc == 0
    then record {
      success = false;
      object = m;
      error_info = process_heap_error format_message calls.last_error;
      trace = t;
    }
    else if block == 0
    then record {
      success = false;
      object = record m { mem = 0 };
      error_info = codes "HeapAlloc failed to allocate " ++ decimal n_bytes ++ codes " bytes";
      trace = t;
    }
    else record {
      success = true;
      object = record { mem = block; size = n_bytes };
      error_info = [];
      trace = opened block ∷ t;
    }

unfoldable pub alloc : FormatMessage → HeapCalls → ℕ → HeapMem → Trace → HeapResult
unfolding dealloc alloc_block
alloc format_message calls n_bytes m t =
    let freed = dealloc format_message calls m t in
    if freed.success
    then alloc_block format_message calls n_bytes freed.object freed.trace
    else freed
