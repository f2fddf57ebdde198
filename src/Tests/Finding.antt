-- ===== src/Tests/Finding.antt =====
-- Discovery of log files and the ends of files, on concrete values.
use rdstail.Text.{format_int}
use rdstail.Prelude.{
  ℕ, ◌≡◌, refl, sym, subst, arith, true, false, Option, none, some, List, [], ◌∷◌, Bytes, codes,
  same, keep_if, if◌then◌else◌, ◌<◌, inl, inr, Bool-cases,
}
use rdstail.Failure.{Result, ok, err}
use rdstail.Source.FileMeta.{FileMeta}
use rdstail.Source.Portion.{Call, Response}
use rdstail.Source.Discovery.{
  Classifier, mysql_classifier, accepts, FilesCall, FilesPage, discover_files,
}
use rdstail.Source.Discovery.Complete.{last_page, next_page, all_files, discover_files-Pages}
use rdstail.Source.Instances.{DbInstance, DiscoverFilter, DiscoveredInstance, DbPage}
use rdstail.Source.SkipToEnd.{Skipped, skip_to_end}
use rdstail.Source.SkipToEnd.Returning.{LeadsOn, skip_to_end-returns}
use rdstail.Source.SkipToEnd.Answer.{IsAnswered, skip_to_end-IsAnswered}

abbrev same_text : Bytes → Bytes
same_text s = s

abbrev file_of : Bytes → FileMeta
file_of name = record { name = name; size = 5; last_written_ms = 1 }

abbrev slow : FileMeta
slow = file_of (codes "slowquery/mysql-slowquery.log")

abbrev audit : FileMeta
audit = file_of (codes "audit/server_audit.log")

abbrev error : FileMeta
error = file_of (codes "error/mysql-error.log")

-- Two pages.
abbrev files : FilesCall → Result FilesPage
files c = elim c.marker [
  | none ↦ ok (record { files = slow ∷ audit ∷ []; marker = codes "m" })
  | some m ↦ ok (record { files = error ∷ []; marker = [] })
]

abbrev without_audit : Classifier
without_audit = mysql_classifier false

discover_files-Pages_example :
    discover_files same_text same_text files without_audit 2
    ≡ some (
        ok (
          keep_if
            (λ f. accepts same_text same_text without_audit f.name)
            (all_files ((slow ∷ audit ∷ []) ∷ (error ∷ []) ∷ []))))
discover_files-Pages_example =
    discover_files-Pages same_text same_text files without_audit 2
      ((slow ∷ audit ∷ []) ∷ (error ∷ []) ∷ [])
      (next_page none (slow ∷ audit ∷ []) b'm' [] refl
        (last_page (some (codes "m")) (error ∷ []) refl))
      (omega arith)

-- A file of 20 bytes: RDS reads on from the marker that it is given.
abbrev portions : List Call → Call → Result Response
portions calls c =
    if same c.marker (codes "0")
    then ok (record { log_text = codes "a"; marker = codes "h:1"; pending = true })
    else ok (record { log_text = codes "b"; marker = codes "h:21"; pending = false })

abbrev marker_of : Option Skipped → Bytes
marker_of none = []
marker_of (some (ok m, calls)) = m
marker_of (some (err e, calls)) = []

abbrev calls_of : Option Skipped → List Call
calls_of none = []
calls_of (some (r, calls)) = calls

abbrev skipped : Option Skipped
skipped = skip_to_end portions (codes "f") 3 20 []

to_the_size : marker_of skipped ≡ codes "h:20"
unfolding skip_to_end format_int
to_the_size = refl

skip_to_end-IsAnswered_example :
    IsAnswered portions (codes "f") 20 (codes "h:20") (calls_of skipped)
unfolding skip_to_end format_int
skip_to_end-IsAnswered_example =
    skip_to_end-IsAnswered portions (codes "f") 3 20 (codes "h:20") [] (calls_of skipped) refl

-- What is left behind a marker: all of the file, or nothing.
abbrev left : Bytes → ℕ
left m = if same m (codes "0") then 1 else 0

abbrev leading : Response
leading = record { log_text = codes "a"; marker = codes "h:1"; pending = true }

nothing_left : left (codes "h:1") < 1
unfolding same
nothing_left = omega arith

leads : LeadsOn portions left
leads calls c resp h more = elim (Bool-cases (same c.marker (codes "0"))) [
  | inl first ↦
      let is_leading : resp ≡ leading = ground (arith, first, h) in
      rw first (subst (λ r. left r.marker < 1) (sym is_leading) nothing_left)
  | inr later ↦ absurd (ground (arith, later, h, more))
]

skip_to_end-returns_example : (r : Skipped) × (skip_to_end portions (codes "f") 1 20 [] ≡ some r)
unfolding same
skip_to_end-returns_example =
    skip_to_end-returns portions (codes "f") left leads 1 20 [] (omega arith)

abbrev tagged : DbInstance
tagged = record {
  id = codes "db-2";
  engine = codes "aurora";
  status = codes "available";
  tag_list = (codes "team", codes "web") ∷ [];
}

abbrev opted_out : DbInstance
opted_out = record {
  id = codes "db-1";
  engine = codes "mysql";
  status = codes "available";
  tag_list = (codes "team", codes "web") ∷ (codes "skip", codes "yes") ∷ [];
}

abbrev web_only : DiscoverFilter
web_only = record {
  tags = (codes "team", codes "web") ∷ [];
  exclude_tags = (codes "skip", codes "*") ∷ [];
  all = false;
  engine = [];
}

abbrev instances : Option Bytes → Result DbPage
instances marker = ok (opted_out ∷ tagged ∷ [], [])

abbrev same_instances : List DiscoveredInstance → List DiscoveredInstance
same_instances found = found
