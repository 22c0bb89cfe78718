-- ===== src/Store/Tests/Blobs.antt =====
-- The blobs of two attempts at a submission.
use satunera.Prelude.{
  ℕ, ◌≡◌, refl, [], ◌∷◌, ◌++◌, none, some, Text, codes, text_eq, any, if◌then◌else◌,
}
use satunera.Store.Blob.{
  BlobKind, log, digits, Files, read_file, blob_key, path_join, path_for, uri, put_temporary, put,
  get_blob, bytes_of,
}
use satunera.Store.Blob.Laws.{IsBlob, get_blob-put, put-tidy}
use satunera.Store.Blob.Paths.{path_for-blob_key}
use satunera.Contracts.Source.Safety.{IsSegment, IsRelative}
use satunera.Store.Blob.Digits.{blob_key-log-inj}
use satunera.Store.Tests.Sample.{numbers}

abbrev first_log : BlobKind ℕ
first_log = log 7 1

abbrev later_log : BlobKind ℕ
later_log = log 7 12

abbrev root : Text
root = codes "/var/judge"

abbrev stored_files : Files
stored_files = (codes "logs/" ++ 7 ∷ codes "/1", 5 ∷ []) ∷ []

named : blob_key numbers later_log ≡ codes "logs/" ++ 7 ∷ codes "/12"
unfolding blob_key digits
named = refl

plain : IsBlob numbers later_log
unfolding any
plain = refl

also_plain : IsBlob numbers first_log
unfolding any
also_plain = refl

get_blob-put_example :
    (get_blob numbers first_log (put_temporary numbers later_log (6 ∷ []) stored_files)
      ≡ get_blob numbers first_log stored_files)
    × (get_blob numbers first_log (put numbers root later_log (6 ∷ []) stored_files).1 ≡ (
        if text_eq (blob_key numbers later_log) (blob_key numbers first_log)
        then bytes_of (6 ∷ [])
        else get_blob numbers first_log stored_files))
    × ((put numbers root later_log (6 ∷ []) stored_files).0 ≡ uri numbers root later_log)
get_blob-put_example =
    get_blob-put numbers root later_log first_log (6 ∷ []) stored_files plain also_plain

put-tidy_example :
    read_file
      (blob_key numbers later_log ++ codes ".tmp")
      (put numbers root later_log (6 ∷ []) stored_files).1
    ≡ none
put-tidy_example = put-tidy numbers root later_log (6 ∷ []) stored_files plain

same_log : blob_key numbers (log 7 12) ≡ blob_key numbers later_log
same_log = refl

blob_key-log-inj_example : ◌≡◌ {A = ℕ} 12 12
blob_key-log-inj_example = blob_key-log-inj numbers 7 12 12 same_log

-- The number 7 is no letter, and no slash, colon or dot.
abbrev seven : Text
seven = 7 ∷ []

seven-IsSegment : IsSegment seven
unfolding text_eq
seven-IsSegment = record {
  nonempty = refl;
  not_dot = refl;
  not_dot_dot = refl;
  plain = ((refl, refl, refl), tt);
}

path_for-blob_key_example :
    IsRelative (blob_key numbers later_log)
    × (path_for numbers root later_log ≡ some (path_join root (blob_key numbers later_log)))
path_for-blob_key_example = path_for-blob_key numbers root later_log seven-IsSegment
