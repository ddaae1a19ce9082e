-- ===== src/Retrieval/Fetches.antt =====
-- One fetch of `execute_search_tool` in runtime/retrieval_runtime.py: what the provider returns,
-- and what the loop over its candidates adds. The provider is a parameter: from its own state, a
-- page and a page size it returns what it fetched, or nothing where it raises. A candidate is its
-- two keys; what the function copies from the provider to its records is left out.
pub mod Scans
use cv_match.Common.{
  ℕ, zero, max, ◌-◌, ◌+◌, str_eq, String, if◌then◌else◌, List, Option, Bool, suc, ◌∷◌, ◌++◌, [],
  length, any, not, leb, true, some, map, ◌&&◌, ltb, ◌==◌, false, is_some, none,
}

pub record Candidate : Type 0 where
  pub resume_id : String
  pub dedup_key : String

pub record FetchResult : Type 0 where
  pub candidates : List Candidate
  pub raw_candidate_count : ℕ

abbrev pub Provider : Type 0 → Type 0
Provider W = W → ℕ → ℕ → Option (FetchResult × W)

pub record ResumeHit : Type 0 where
  pub hit_sequence_no : ℕ
  pub resume_id : String
  pub rank_in_query : ℕ
  pub provider_page_no : ℕ
  pub provider_fetch_no : ℕ
  pub was_new_to_pool : Bool

abbrev pub mem_key : String → List String → Bool
mem_key k ks = any (str_eq k) ks

-- What the loop over the candidates of one fetch adds
pub record Batch : Type 0 where
  pub keys : List String
  pub fresh : List Candidate
  pub duplicates : ℕ
  pub hits : List ResumeHit

abbrev pub hit_of : List String → List String → ℕ → ℕ → ℕ → ℕ → Candidate → ResumeHit
hit_of ids keys page fetch_no sequence rank candidate = record {
  hit_sequence_no = sequence;
  resume_id = candidate.resume_id;
  rank_in_query = rank;
  provider_page_no = page;
  provider_fetch_no = fetch_no;
  was_new_to_pool = not (mem_key candidate.dedup_key keys) && not (mem_key candidate.resume_id ids);
}

abbrev pub batch_duplicate : ResumeHit → Batch → Batch
batch_duplicate hit b = record {
  keys = b.keys;
  fresh = b.fresh;
  duplicates = suc b.duplicates;
  hits = hit ∷ b.hits;
}

abbrev pub batch_known : ResumeHit → Batch → Batch
batch_known hit b = record {
  keys = b.keys;
  fresh = b.fresh;
  duplicates = b.duplicates;
  hits = hit ∷ b.hits;
}

abbrev pub batch_new : Candidate → ResumeHit → Batch → Batch
batch_new candidate hit b = record {
  keys = b.keys;
  fresh = candidate ∷ b.fresh;
  duplicates = b.duplicates;
  hits = hit ∷ b.hits;
}

unfoldable pub scan_candidates : List String → ℕ → ℕ → ℕ → ℕ → List String → List Candidate → Batch
scan_candidates ids page fetch_no sequence rank keys [] = record {
  keys = keys;
  fresh = [];
  duplicates = 0;
  hits = [];
}
scan_candidates ids page fetch_no sequence rank keys (candidate ∷ candidates) =
    let hit = hit_of ids keys page fetch_no (suc sequence) (suc rank) candidate in
    let again = scan_candidates ids page fetch_no (suc sequence) (suc rank) keys candidates in
    let rest =
      scan_candidates ids page fetch_no (suc sequence) (suc rank) (candidate.dedup_key ∷ keys)
        candidates in
    if mem_key candidate.dedup_key keys
    then batch_duplicate hit again
    else if mem_key candidate.resume_id ids
    then batch_known hit rest
    else batch_new candidate hit rest
