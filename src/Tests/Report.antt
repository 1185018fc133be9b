-- ===== src/Tests/Report.antt =====
-- Runs of the report of the threads.
use zombie_finder.Base.{refl, true, some, List, [], ◌∷◌, arith}
use zombie_finder.Base.Map.{count_key}
use zombie_finder.Base.Text.{codes}
use zombie_finder.Handles.{Fresh, Accounted, NoTable, live, occurrences}
use zombie_finder.FullThreadReport.{ThreadWait, ReportCalls, full_thread_report}
use zombie_finder.FullThreadReport.Safety.{full_thread_report-Accounted}
use zombie_finder.Tests.Scenario.{denied, information}

-- A thread that runs, one that has exited, and one on which the wait fails.
abbrev threads : List ThreadWait
threads =
    record { handle = 104; wait = 258 }
    ∷ record { handle = 108; wait = 0 }
    ∷ record { handle = 112; wait = 0xffffffff }
    ∷ []

abbrev calls : ReportCalls
calls = record {
  ntdll_found = true;
  functions_found = true;
  processes =
      record {
        handle = 100;
        basic_status = 0;
        information = information 8 0;
        image_status = 0;
        image_name = some (codes "a.exe");
        handle_count = 3;
        wait = 258;
        open_process = λ pid. 500;
        threads = λ process. threads;
      }
      ∷ [];
  end_status = 0x8000001a;
}

nothing_open : Accounted {V = Unit} [] [] NoTable
unfolding live count_key occurrences
nothing_open = record { closes = tt; holds = λ h. refl }

report_trace-Fresh : Fresh (full_thread_report denied calls []).1.trace
unfolding full_thread_report live
report_trace-Fresh = (
  λ e. omega (arith, e),
  refl,
  (
    λ e. omega (arith, e),
    refl,
    (λ e. omega (arith, e), refl, (λ e. omega (arith, e), refl, (λ e. omega (arith, e), refl, tt))),
  ),
)

full_thread_report-Accounted_example :
    Accounted {V = Unit} (full_thread_report denied calls []).1.trace [] NoTable
full_thread_report-Accounted_example =
    full_thread_report-Accounted denied calls [] nothing_open report_trace-Fresh
