-- ===== src/References/Examples.antt =====
-- langserver/references.go: three references with a tick between them.
use go_langserver.Common.{Bytes, List, [], codes, ◌∷◌, ◌≡◌}
use go_langserver.Common.Int.{pos}
use go_langserver.Lsp.{Location}
use go_langserver.References.{Input, reference, tick, ref_stream_and_collect}
use go_langserver.References.Streaming.{client_view, client_view-ref_stream_and_collect}

abbrev place : Bytes → Location
place uri = record {
  uri = uri;
  range = record {
    start = record { line = pos 0; character = pos 0 };
    end = record { line = pos 0; character = pos 3 };
  };
}

abbrev inputs : List Input
inputs =
    reference (place (codes "file:///a.go"))
    ∷ tick
    ∷ reference (place (codes "file:///b.go"))
    ∷ reference (place (codes "file:///c.go"))
    ∷ []

client_view-ref_stream_and_collect_example :
    client_view [] (ref_stream_and_collect (pos 2) inputs).notified
    ≡ (ref_stream_and_collect (pos 2) inputs).locs
client_view-ref_stream_and_collect_example = client_view-ref_stream_and_collect (pos 2) inputs
