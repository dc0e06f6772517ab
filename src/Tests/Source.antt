-- ===== src/Tests/Source.antt =====
-- The client of the ranking over a network that has its answers ready.
use bipa_coding_challenge.Common.{
  ◌+◌, ◌≡◌, ◌↔◌, refl, List, [], ◌∷◌, codes, length, filter_map, ok, err,
}
use bipa_coding_challenge.Common.Int.{pos, negsuc}
use bipa_coding_challenge.Source.{status}
use bipa_coding_challenge.Source.Dto.{MempoolNodeDto, negative_capacity, try_from}
use bipa_coding_challenge.Source.Dto.Validation.{
  IsNodeOf, Refuses, try_from-ok_iff, try_from-err_iff,
}
use bipa_coding_challenge.Source.Dto.Records.{accepted}
use bipa_coding_challenge.Source.Mempool.{tally, fetch_nodes}
use bipa_coding_challenge.Source.Mempool.Fetch.{Delivers, fetch_nodes-ok, Fails, fetch_nodes-err}
use bipa_coding_challenge.Tests.Outside.{seconds_chrono, bytes_json, scripted_reqwest}
use bipa_coding_challenge.Tests.Nodes.{acinq}
use bipa_coding_challenge.Tests.Fetches.{client, good, bad, records}

fetch_nodes-ok_example :
    (found : List bytes_json.Value) × Delivers scripted_reqwest seconds_chrono bytes_json client
      (ok good ∷ [])
      found
    × ((tally scripted_reqwest seconds_chrono bytes_json records).nodes
        ≡ filter_map (accepted seconds_chrono bytes_json) found)
    × ((tally scripted_reqwest seconds_chrono bytes_json records).received ≡ length found)
    × ((tally scripted_reqwest seconds_chrono bytes_json records).valid
          + (tally scripted_reqwest seconds_chrono bytes_json records).skipped
        ≡ (tally scripted_reqwest seconds_chrono bytes_json records).received)
    × ((tally scripted_reqwest seconds_chrono bytes_json records).skipped
        ≡ length (tally scripted_reqwest seconds_chrono bytes_json records).warnings)
unfolding fetch_nodes
fetch_nodes-ok_example =
    fetch_nodes-ok scripted_reqwest seconds_chrono bytes_json client (ok good ∷ [])
      (tally scripted_reqwest seconds_chrono bytes_json records) refl

fetch_nodes-err_example :
    Fails scripted_reqwest seconds_chrono bytes_json client (ok bad ∷ []) (status 503)
unfolding fetch_nodes
fetch_nodes-err_example =
    fetch_nodes-err scripted_reqwest seconds_chrono bytes_json client (ok bad ∷ []) (status 503)
      refl

abbrev acinq_dto : MempoolNodeDto
acinq_dto = record {
  public_key = codes "03864e";
  alias = codes "ACINQ";
  capacity = pos 36_010_516_297;
  first_seen = pos 1_522_941_222;
}

abbrev negative_dto : MempoolNodeDto
negative_dto = record acinq_dto { capacity = negsuc 0 }

try_from-ok_iff_example :
    (try_from seconds_chrono acinq_dto ≡ ok acinq) ↔ IsNodeOf seconds_chrono acinq_dto acinq
try_from-ok_iff_example = try_from-ok_iff seconds_chrono acinq_dto acinq

try_from-err_iff_example :
    (try_from seconds_chrono negative_dto ≡ err (negative_capacity (negsuc 0)))
    ↔ Refuses seconds_chrono negative_dto (negative_capacity (negsuc 0))
try_from-err_iff_example =
    try_from-err_iff seconds_chrono negative_dto (negative_capacity (negsuc 0))
