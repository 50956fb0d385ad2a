-- ===== src/TalosMeta/Tests.antt =====
-- The document of an operator.
use actions.Prelude.{
  ◌≡◌, ◌⊎◌, refl, true, [], none, ok, err, no_hardware, no_such_interface, if◌then◌else◌,
}
use actions.Text.{Text, codes, text_eq}
use actions.Net.Sample.{netip}
use actions.TalosMeta.{Sources, network_document, join_host_port}
use actions.TalosMeta.Document.{IsRendered, network_document_lem}

abbrev sources : Sources
sources = record {
  network_ok = λ doc. true;
  namer = λ predictable mac. err no_such_interface;
  decode_spec = λ json. err no_hardware;
  fetch = λ url. err no_hardware;
  net = netip;
  marshal = λ cfg. ok (codes "addresses: []");
}

abbrev env : Text → Text
env name = if text_eq name (codes "NETWORK_CONFIG") then codes "links: []" else []

document_runs : network_document sources env none ≡ ok (codes "links: []")
unfolding network_document text_eq
document_runs = refl

host_runs : join_host_port (codes "fd00::1") (codes "7080") ≡ codes "[fd00::1]:7080"
unfolding join_host_port
host_runs = refl

network_document_lem_example :
    ((codes "links: []" ≡ env (codes "NETWORK_CONFIG"))
      × (sources.network_ok (codes "links: []") ≡ true))
    ⊎ ((text_eq (env (codes "NETWORK_CONFIG")) [] ≡ true)
        × IsRendered sources env none (codes "links: []"))
network_document_lem_example =
    network_document_lem sources env none (codes "links: []") document_runs
