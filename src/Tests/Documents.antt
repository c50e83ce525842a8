-- ===== src/Tests/Documents.antt =====
-- A decoder of init.yaml, and runs of the merge.
use flaresolverr_go.Prelude.{
  String, Bool, Option, none, some, [], ◌∷◌, ◌≡◌, refl, sym, ap, Result, ok, failure, err,
}
use flaresolverr_go.Prelude.Int.{ℤ, pos}
use flaresolverr_go.Config.{Proxy, default_config_values}
use flaresolverr_go.Config.Load.{ConfigFile}
use flaresolverr_go.Config.Save.{config_file_from_config}
use flaresolverr_go.Config.Yaml.{
  Node, Scalar, scalar, mapping, other, Fields, end, field, null, text, number, flag, find,
  Document, tree, render_config_yaml,
}
use flaresolverr_go.Config.Yaml.Holds.{
  IsText, IsNumber, IsFlag, IsProxy, Holds, Decodes, IsMergeable,
}

abbrev text_of : Option Node → String
text_of (some (scalar (text s))) = s
text_of o = ""

abbrev number_of : Option Node → ℤ
number_of (some (scalar (number n))) = n
number_of o = pos 0

abbrev flag_of : Option Node → Option Bool
flag_of (some (scalar (flag b))) = some b
flag_of o = none

abbrev proxy_of : Option Node → Option Proxy
proxy_of (some (mapping fields)) = some (record {
  url = text_of (find "url" fields);
  username = text_of (find "username" fields);
  password = text_of (find "password" fields);
})
proxy_of o = none

abbrev file_of : Fields → ConfigFile
file_of fields = record {
  host = text_of (find "host" fields);
  port = number_of (find "port" fields);
  browser_backend = text_of (find "browser_backend" fields);
  browser_path = text_of (find "browser_path" fields);
  driver_path = text_of (find "driver_path" fields);
  driver_cache_dir = text_of (find "driver_cache_dir" fields);
  driver_auto_download = flag_of (find "driver_auto_download" fields);
  chrome_for_testing_url = text_of (find "chrome_for_testing_url" fields);
  headless = flag_of (find "headless" fields);
  startup_user_agent = text_of (find "startup_user_agent" fields);
  log_level = text_of (find "log_level" fields);
  log_html = flag_of (find "log_html" fields);
  disable_media = flag_of (find "disable_media" fields);
  prometheus_enabled = flag_of (find "prometheus_enabled" fields);
  prometheus_port = number_of (find "prometheus_port" fields);
  default_proxy = proxy_of (find "proxy" fields);
}

abbrev pub decode : Node → Result ConfigFile
decode (mapping fields) = ok (file_of fields)
decode (scalar s) = err (failure "cannot unmarshal !!str into server.configFile")
decode other = err (failure "cannot unmarshal !!seq into server.configFile")

text_of-IsText : (o : Option Node) (s : String) → IsText o s → text_of o ≡ s
unfolding IsText
text_of-IsText none s h = sym h
text_of-IsText (some (scalar (text t))) s h = sym h
text_of-IsText (some (scalar null)) s h = absurd h
text_of-IsText (some (scalar (number n))) s h = absurd h
text_of-IsText (some (scalar (flag b))) s h = absurd h
text_of-IsText (some (mapping fields)) s h = absurd h
text_of-IsText (some other) s h = absurd h

number_of-IsNumber : (o : Option Node) (n : ℤ) → IsNumber o n → number_of o ≡ n
unfolding IsNumber
number_of-IsNumber none n h = absurd h
number_of-IsNumber (some (scalar (number m))) n h = sym h
number_of-IsNumber (some (scalar null)) n h = absurd h
number_of-IsNumber (some (scalar (text t))) n h = absurd h
number_of-IsNumber (some (scalar (flag b))) n h = absurd h
number_of-IsNumber (some (mapping fields)) n h = absurd h
number_of-IsNumber (some other) n h = absurd h

flag_of-IsFlag : (o : Option Node) (b : Option Bool) → IsFlag o b → flag_of o ≡ b
unfolding IsFlag
flag_of-IsFlag none b h = absurd h
flag_of-IsFlag (some (scalar (flag c))) b h = sym h
flag_of-IsFlag (some (scalar null)) b h = sym h
flag_of-IsFlag (some (scalar (text t))) b h = absurd h
flag_of-IsFlag (some (scalar (number n))) b h = absurd h
flag_of-IsFlag (some (mapping fields)) b h = absurd h
flag_of-IsFlag (some other) b h = absurd h

proxy_of-IsProxy : (o : Option Node) (p : Option Proxy) → IsProxy o p → proxy_of o ≡ p
unfolding IsProxy
proxy_of-IsProxy none p h = sym h
proxy_of-IsProxy (some (scalar s)) p h = absurd h
proxy_of-IsProxy (some other) p h = absurd h
proxy_of-IsProxy (some (mapping fields)) none h = absurd h
proxy_of-IsProxy (some (mapping fields)) (some p) (plain, u, n, w) =
    rw
      (
        text_of-IsText (find "url" fields) p.url u,
        text_of-IsText (find "username" fields) p.username n,
        text_of-IsText (find "password" fields) p.password w,
      )
      refl

file_of-Holds : (fields : Fields) (f : ConfigFile) → Holds fields f → file_of fields ≡ f
file_of-Holds fields f h =
    rw
      (
        text_of-IsText (find "host" fields) f.host h.host,
        number_of-IsNumber (find "port" fields) f.port h.port,
        text_of-IsText (find "browser_backend" fields) f.browser_backend h.browser_backend,
        text_of-IsText (find "browser_path" fields) f.browser_path h.browser_path,
        text_of-IsText (find "driver_path" fields) f.driver_path h.driver_path,
        text_of-IsText (find "driver_cache_dir" fields) f.driver_cache_dir h.driver_cache_dir,
        flag_of-IsFlag (find "driver_auto_download" fields) f.driver_auto_download
            h.driver_auto_download,
        text_of-IsText (find "chrome_for_testing_url" fields) f.chrome_for_testing_url
            h.chrome_for_testing_url,
        flag_of-IsFlag (find "headless" fields) f.headless h.headless,
        text_of-IsText (find "startup_user_agent" fields) f.startup_user_agent h.startup_user_agent,
        text_of-IsText (find "log_level" fields) f.log_level h.log_level,
        flag_of-IsFlag (find "log_html" fields) f.log_html h.log_html,
        flag_of-IsFlag (find "disable_media" fields) f.disable_media h.disable_media,
        flag_of-IsFlag (find "prometheus_enabled" fields) f.prometheus_enabled h.prometheus_enabled,
        number_of-IsNumber (find "prometheus_port" fields) f.prometheus_port h.prometheus_port,
        proxy_of-IsProxy (find "proxy" fields) f.default_proxy h.default_proxy,
      )
      refl

pub decode-Decodes : Decodes decode
unfolding Decodes
decode-Decodes fields f plain h = ap ok (file_of-Holds fields f h)

-- An init.yaml with a key of its own and a proxy.
abbrev pub existing : Document
existing = tree (
    mapping (
      field "host" (scalar (text "localhost")) (
        field "own" other (
          field "browser_path" (scalar (text "/usr/bin/firefox"))
            (field "proxy" (mapping (field "url" (scalar (text "http://old:1")) end)) end)))))

pub existing-IsMergeable : IsMergeable existing
unfolding IsMergeable find flaresolverr_go.Config.Yaml.Holds.IsProxyNode
    flaresolverr_go.Config.Yaml.Merge.Distinct
existing-IsMergeable = (
  record { distinct = (refl, (refl, (refl, (refl, tt)))); no_merge_key = refl },
  record { distinct = (refl, tt); no_merge_key = refl },
)

abbrev proxy_after : Node → Option Node
proxy_after (mapping fields) = find "proxy" fields
proxy_after node = none

-- A proxy without a value becomes the empty text, which is no mapping for a proxy.
empty_proxy_is_a_text :
    proxy_after (
      render_config_yaml
        (tree (mapping (field "proxy" (scalar null) end)))
        (config_file_from_config default_config_values))
    ≡ some (scalar (text ""))
unfolding render_config_yaml config_file_from_config default_config_values
    flaresolverr_go.Config.Yaml.merge_mapping flaresolverr_go.Config.Yaml.mapping_node_of
    flaresolverr_go.Config.Yaml.present flaresolverr_go.Config.Yaml.clear
    flaresolverr_go.Config.Yaml.merge_fields flaresolverr_go.Config.Yaml.put
    flaresolverr_go.Config.Yaml.emptied flaresolverr_go.Config.Yaml.proxy_node find
    flaresolverr_go.Config.Save.file_proxy flaresolverr_go.Config.canonical_log_level
    flaresolverr_go.Prelude.to_lower flaresolverr_go.Prelude.trim
empty_proxy_is_a_text = refl
