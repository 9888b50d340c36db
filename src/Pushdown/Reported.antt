-- ===== src/Pushdown/Reported.antt =====
-- What a report of a pushdown leaves for EXPLAIN, and what the report of the next one finds there.
use duckdb_delta.Prelude.{
  if◌then◌else◌, ℕ, ◌==◌, ◌≡◌, refl, sym, ap, leb, Option, some, none, ok, ok_inj, bind_ok, throw,
  internal, codes, arith, ◌∙◌,
}
use duckdb_delta.Pushdown.Report.{ExtraInfo, report_counts, set_total, set_filtered}

set_total-counts :
    (n : ℕ) (t : Option ℕ) (info i : ExtraInfo)
    → info.total_files ≡ t
    → set_total n t info ≡ ok i
    → (i.total_files ≡ some n) × (i.filtered_files ≡ info.filtered_files)
set_total-counts n none info i e h =
    let p = sym (ok_inj (record info { total_files = some n }) i h) in
    (ap (λ (j : ExtraInfo). j.total_files) p, ap (λ (j : ExtraInfo). j.filtered_files) p)
set_total-counts n (some t) info i e h = ground arith

set_filtered-counts :
    (n : ℕ) (t : Option ℕ) (info i : ExtraInfo)
    → set_filtered n t info ≡ ok i
    → (i.filtered_files ≡ some n) × (i.total_files ≡ info.total_files)
set_filtered-counts n none info i h =
    let p = sym (ok_inj (record info { filtered_files = some n }) i h) in
    (ap (λ (j : ExtraInfo). j.filtered_files) p, ap (λ (j : ExtraInfo). j.total_files) p)
set_filtered-counts n (some t) info i h = ground arith

-- A report that succeeds leaves both counts as it found them in the lists. A second one, of a pushdown on
-- the new list, throws if the first pushdown removed a file, since the total is compared with that of the
-- first list; else it succeeds where the files are no more than before, and throws where they are more.
pub report_counts_twice :
    (old_total new_total last_total : ℕ) (info i : ExtraInfo)
    → report_counts old_total new_total info ≡ ok i
    → (i.total_files ≡ some old_total)
      × (i.filtered_files ≡ some new_total)
      × (report_counts new_total last_total i ≡ (
          if old_total == new_total
          then (if leb last_total new_total
              then ok (record i { filtered_files = some last_total })
              else throw internal (
                  codes
                    "Error encountered when analyzing filtered out files for delta scan: filtered_files inconsistent!"))
          else throw internal (
              codes
                "Error encountered when analyzing filtered out files for delta scan: total_files inconsistent!")))
unfolding report_counts
report_counts_twice old new last info i h =
    let (j, (a, b)) =
      bind_ok (set_total old info.total_files info)
        (λ (j : ExtraInfo). set_filtered new j.filtered_files j) i h in
    let (c, d) = set_total-counts old info.total_files info j refl a in
    let (e, f) = set_filtered-counts new j.filtered_files j i b in
    let g = f ∙ c in (g, e, ground arith)
