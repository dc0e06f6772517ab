-- ===== src/Tests/Domain.antt =====
-- Conversions of amounts and times.
use bipa_coding_challenge.Common.{◌≡◌, refl, some, map, All, arith}
use bipa_coding_challenge.Common.Int.{pos}
use bipa_coding_challenge.Domain.Format.{format_btc}
use bipa_coding_challenge.Domain.Format.RoundTrip.{
  read_btc, read_btc-format_btc, IsAmount, format_btc-IsAmount,
}
use bipa_coding_challenge.Http.Response.{node_list, from_node}
use bipa_coding_challenge.Domain.Time.{timestamp_from_unix}
use bipa_coding_challenge.Tests.Outside.{seconds_chrono, seconds_laws}
use bipa_coding_challenge.Http.Json.{body_text}
use bipa_coding_challenge.Http.Json.Client.{read_answer, IsDated, read_answer-body_text}
use bipa_coding_challenge.Tests.Nodes.{ranking}
use bipa_coding_challenge.Tests.Writer.{compact_writer}

read_btc-format_btc_example : read_btc (format_btc 550_000) ≡ some 550_000
read_btc-format_btc_example = read_btc-format_btc 550_000

format_btc-IsAmount_example : IsAmount 36_010_516_297 (format_btc 36_010_516_297)
format_btc-IsAmount_example = format_btc-IsAmount 36_010_516_297

dated : All (IsDated seconds_chrono seconds_laws) ranking
unfolding timestamp_from_unix
dated = ((pos 1_522_941_222, omega arith, refl), ((pos 1_600_000_000, omega arith, refl), tt))

read_answer-body_text_example :
    read_answer seconds_chrono seconds_laws compact_writer (
      body_text compact_writer
        (record { status = 200; body = node_list (map (from_node seconds_chrono) ranking) }))
    ≡ some ranking
read_answer-body_text_example =
    read_answer-body_text seconds_chrono seconds_laws compact_writer ranking dated
