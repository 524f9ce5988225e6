-- ===== src/ControlPlane/Secrets/Tests.antt =====
-- The keys of two hosts.
use docker_interface.Prelude.{◌≡◌, refl, []}
use docker_interface.Py.Chars.{chars, to_text, filter}
use docker_interface.Py.Dict.{string_eq}
use docker_interface.Py.Result.{ok}
use docker_interface.ControlPlane.Secrets.{build_host_api_key_secret_path, put_secret, get_secret}
use docker_interface.ControlPlane.Secrets.Paths.{put_secret-hosts}

alpha_path : build_host_api_key_secret_path (chars "a-1") ≡ ok "lab-hosts/a-1/api-key"
unfolding build_host_api_key_secret_path chars to_text filter
alpha_path = refl

beta_path : build_host_api_key_secret_path (chars "b_2") ≡ ok "lab-hosts/b_2/api-key"
unfolding build_host_api_key_secret_path chars to_text filter
beta_path = refl

put_secret-hosts_example :
    (get_secret "lab-hosts/a-1/api-key" (put_secret "lab-hosts/a-1/api-key" "k" []) ≡ ok "k")
    × (get_secret "lab-hosts/b_2/api-key" (put_secret "lab-hosts/a-1/api-key" "k" [])
        ≡ get_secret "lab-hosts/b_2/api-key" [])
unfolding chars
put_secret-hosts_example =
    put_secret-hosts (chars "a-1") (chars "b_2") "lab-hosts/a-1/api-key" "lab-hosts/b_2/api-key" "k"
      [] (refl, (refl, (refl, tt))) (refl, (refl, (refl, tt))) (λ e. cc) alpha_path beta_path

-- A dot is dropped, so the name of another host has the same path.
one_path_twice :
    build_host_api_key_secret_path (chars "lab1.eu")
    ≡ build_host_api_key_secret_path (chars "lab1eu")
unfolding build_host_api_key_secret_path chars to_text filter
one_path_twice = refl
