-- ===== src/Printer/Tests/Spooling.antt =====
-- Concrete runs of the theorems on paths of conversions and on the jobs that printers get.
use mathlib.Core.Option.{Option, none, some}
use audible.Base.{ℕ, ◌≢◌, inl, List, [], ◌∷◌, arith}
use audible.Printer.Types.{Conversion, FileType, get_type}
use audible.Printer.Types.Paths.{get_conversion_path}
use audible.Printer.Types.Paths.Chains.{IsSound, get_conversion_path-IsSound}
use audible.Printer.Printers.{Printer}
use audible.Printer.Jobs.{Job, JobStatus}
use audible.Printer.Spool.Apart.{IsSpool}

-- The type `a` with a conversion to `b`, and `b` with one to `c`.
abbrev to_b : Conversion
to_b = record { type = 98 ∷ []; program = 112 ∷ []; args = none }

abbrev to_c : Conversion
to_c = record { type = 99 ∷ []; program = 113 ∷ []; args = none }

abbrev three_types : List FileType
three_types =
    record { type = 97 ∷ []; conversions = to_b ∷ [] }
    ∷ record { type = 98 ∷ []; conversions = to_c ∷ [] }
    ∷ record { type = 99 ∷ []; conversions = [] }
    ∷ []

get_conversion_path-IsSound_example :
    IsSound three_types
      (97 ∷ [])
      (99 ∷ [])
      63
      (get_conversion_path three_types (97 ∷ []) (99 ∷ []) 63)
get_conversion_path-IsSound_example = get_conversion_path-IsSound three_types (97 ∷ []) (99 ∷ []) 63

-- A conversion of the table leads to a defined type.
abbrev LeadsOn : Conversion → Type 0
LeadsOn c = get_type c.type three_types ≢ none

-- A busy printer of the type `a` and an idle one of the type `c`, for a job of each.
abbrev two_printers : List Printer
two_printers =
    record { id = 0; name = 120 ∷ []; type = 97 ∷ []; enabled = 1; busy = 1 }
    ∷ record { id = 1; name = 121 ∷ []; type = 99 ∷ []; enabled = 1; busy = 0 }
    ∷ []

abbrev job_of : ℕ → JobStatus → Option ℕ → Job
job_of id status printer = record {
  jobid = id;
  status = status;
  pgid = 0;
  file_name = 102 ∷ [];
  file_type = 97 ∷ [];
  eligible_printers = 3;
  chosen_printer = printer;
  creation_time = 0;
  change_time = 0;
}

abbrev two_jobs : List Job
two_jobs = job_of 0 JobStatus.running (some 0) ∷ job_of 1 JobStatus.queued none ∷ []

two_jobs-IsSpool : IsSpool two_jobs two_printers
two_jobs-IsSpool = record {
  numbered = (((λ e. omega (arith, e)), tt), (tt, tt));
  served = ((λ i e. inl (cc e, λ b. omega (arith, b))), ((λ i e. absurd (cc e)), tt));
  apart = ((λ i e. ((λ e'. cc e'), tt)), ((λ i e. tt), tt));
}
