-- ===== src/Tests/Values.antt =====
-- The theorems on the values that are read and on exceptions, at concrete inputs.
use haos_aqara.Base.{suc, ◌≡◌, ◌≢◌, none, some, List, [], ◌∷◌, length, ◌==◌, nat_eq}
use haos_aqara.Errors.{Objects, cloud_service, other}
use haos_aqara.Errors.Chain.{walk}
use haos_aqara.Errors.Chain.Terminates.{walk_total}
use haos_aqara.Settings.Data.{ReadName, UserCredential}
use haos_aqara.Coordinator.State.{initial}
use haos_aqara.Coordinator.Tally.{credentials_by_type, count_of}
use haos_aqara.Coordinator.Tally.Laws.{occurrences, credentials_by_type-counts}
use haos_aqara.Coordinator.Read.{apply_read}
use haos_aqara.Coordinator.Read.Applied.{IsWrite, stored, apply_read-IsWrite}

-- An operation's error that was raised from a refusal of the cloud, whose context is the first again.
abbrev objects : Objects
objects =
    (record { class = other; name = "U200ClientError"; cause = some 1; context = none })
    ∷ (record {
      class = cloud_service (λ n. n == 810);
      name = "CloudServiceError";
      cause = none;
      context = some 0;
    })
    ∷ []

walk_total_example : walk (suc (length objects)) objects (some 0) [] ≢ none
walk_total_example = walk_total objects 0

abbrev credentials : List UserCredential
credentials =
    (record { type_name = "password" })
    ∷ (record { type_name = "finger" })
    ∷ (record { type_name = "password" })
    ∷ []

credentials_by_type-counts_example :
    count_of "password" (credentials_by_type credentials) ≡ occurrences "password" credentials
credentials_by_type-counts_example = credentials_by_type-counts "password" credentials

apply_read-IsWrite_example :
    IsWrite initial (stored ReadName.battery 80 initial) (apply_read ReadName.battery 80 initial)
apply_read-IsWrite_example = apply_read-IsWrite ReadName.battery 80 initial
