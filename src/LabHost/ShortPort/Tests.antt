-- ===== src/LabHost/ShortPort/Tests.antt =====
-- The short port syntax on one mapping.
use docker_interface.Prelude.{◌≡◌, some, arith}
use docker_interface.Prelude.Int.{pos}
use docker_interface.Py.Chars.{chars}
use docker_interface.LabHost.ShortPort.{parse_short_port_mapping, render_short_port_mapping}
use docker_interface.LabHost.ShortPort.RoundTrip.{parse-render_short_port_mapping}

parse-render_short_port_mapping_example :
    parse_short_port_mapping (
      render_short_port_mapping (record {
        host_ip = some (chars "10.0.0.1");
        host = pos 8080;
        container = pos 80;
        protocol = chars "udp";
      }))
    ≡ some (record {
      host_ip = some (chars "10.0.0.1");
      host = pos 8080;
      container = pos 80;
      protocol = chars "udp";
    })
unfolding chars
parse-render_short_port_mapping_example =
    parse-render_short_port_mapping (some (chars "10.0.0.1")) 8080 80 (chars "udp")
      (((λ e. cc), ground arith), ground arith, ground arith) ((λ e. cc), ground arith)
      (ground arith)
