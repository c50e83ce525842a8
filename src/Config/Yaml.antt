-- ===== src/Config/Yaml.antt =====
-- server/config.go: how settings are written into the tree of an init.yaml that exists. A scalar is
-- the value that it resolves to; comments, blank lines and the text itself are left out.
pub mod Merge
pub mod Holds
pub mod Rendered
use flaresolverr_go.Prelude.{
  String, Bool, true, false, not, ◌&&◌, ◌||◌, Option, none, some, is_some, List, [], ◌∷◌, ◌==◌,
  is_one_of, if◌then◌else◌, Error, Result, ok, err,
}
use flaresolverr_go.Prelude.Int.{ℤ}
use flaresolverr_go.Config.{Proxy}
use flaresolverr_go.Config.Load.{ConfigFile, Read, missing, unusable, parsed}

pub data Scalar : Type 0 where
  null : Scalar
  text : String → Scalar
  number : ℤ → Scalar
  flag : Bool → Scalar

-- yaml.Node: a scalar, a mapping with its keys and values in order, or a sequence or an alias.
mutual
  pub data Node : Type 0 where
    scalar : Scalar → Node
    mapping : Fields → Node
    other : Node

  pub data Fields : Type 0 where
    end : Fields
    field : String → Node → Fields → Fields

unfoldable pub find : String → Fields → Option Node
find key end = none
find key (field k value rest) = if k == key then some value else find key rest

abbrev pub has : String → Fields → Bool
has key fields = is_some (find key fields)

-- The last value of the key is changed, and a key that is not there comes to the end.
unfoldable pub put : (Node → Node) → Node → String → Fields → Fields
put change value key end = field key value end
put change value key (field k old rest) =
    let later = put change value key rest in
    if k == key && not (has key rest) then field k (change old) rest else field k old later

-- value.SetString(""), or the key goes.
unfoldable pub emptied : String → Node → Fields → Fields
emptied key (scalar s) rest = field key (scalar (text "")) rest
emptied key (mapping fields) rest = rest
emptied key other rest = rest

-- The last loop of mergeMapping: what the file has and the settings dropped.
unfoldable pub clear : List String → Fields → Fields → Fields
unfolding emptied
clear owned set end = end
clear owned set (field key value rest) =
    let later = clear owned set rest in
    if not (is_one_of key owned) || has key set
    then field key value later
    else emptied key value later

-- mergeMapping, with the new node first.
unfoldable mutual
  unfolding put clear

  pub merge_node : List String → Node → Node → Node
  merge_node owned (scalar s) old = scalar s
  merge_node owned other old = other
  merge_node owned (mapping set) (mapping old) =
      mapping (clear owned set (merge_fields owned set old))
  merge_node owned (mapping set) (scalar s) = mapping set
  merge_node owned (mapping set) other = mapping set

  pub merge_fields : List String → Fields → Fields → Fields
  merge_fields owned end old = old
  merge_fields owned (field key value rest) old =
      merge_fields owned rest (put (merge_node owned value) value key old)

unfoldable pub merge_mapping : List String → Fields → Fields → Fields
unfolding merge_fields clear
merge_mapping owned set old = clear owned set (merge_fields owned set old)

-- The struct tags: a field with omitempty is left out where it is empty.
unfoldable pub present : List (String × Option Node) → Fields
present [] = end
present ((key, none) ∷ entries) = present entries
present ((key, some value) ∷ entries) = field key value (present entries)

abbrev pub some_text : String → Option Node
some_text s = some (scalar (text s))

abbrev pub some_number : ℤ → Option Node
some_number n = some (scalar (number n))

abbrev pub some_flag : Option Bool → Option Node
some_flag none = some (scalar null)
some_flag (some b) = some (scalar (flag b))

abbrev pub omit_empty : String → Option Node
omit_empty s = if s == "" then none else some (scalar (text s))

abbrev pub proxy_entries : Proxy → List (String × Option Node)
proxy_entries p =
    ("url", some_text p.url)
    ∷ ("username", some_text p.username)
    ∷ ("password", some_text p.password)
    ∷ []

unfoldable pub proxy_node : Option Proxy → Option Node
unfolding present
proxy_node none = none
proxy_node (some p) = some (mapping (present (proxy_entries p)))

abbrev pub entries_of : ConfigFile → List (String × Option Node)
entries_of f =
    ("host", some_text f.host)
    ∷ ("port", some_number f.port)
    ∷ ("browser_backend", omit_empty f.browser_backend)
    ∷ ("browser_path", omit_empty f.browser_path)
    ∷ ("driver_path", omit_empty f.driver_path)
    ∷ ("driver_cache_dir", omit_empty f.driver_cache_dir)
    ∷ ("driver_auto_download", some_flag f.driver_auto_download)
    ∷ ("chrome_for_testing_url", omit_empty f.chrome_for_testing_url)
    ∷ ("headless", some_flag f.headless)
    ∷ ("startup_user_agent", omit_empty f.startup_user_agent)
    ∷ ("log_level", omit_empty f.log_level)
    ∷ ("log_html", some_flag f.log_html)
    ∷ ("disable_media", some_flag f.disable_media)
    ∷ ("prometheus_enabled", some_flag f.prometheus_enabled)
    ∷ ("prometheus_port", some_number f.prometheus_port)
    ∷ ("proxy", proxy_node f.default_proxy)
    ∷ []

unfoldable pub mapping_node_of : ConfigFile → Fields
unfolding present
mapping_node_of f = present (entries_of f)

abbrev pub config_file_keys : List String
config_file_keys =
    "host" ∷ "port" ∷ "browser_backend" ∷ "browser_path" ∷ "driver_path" ∷ "driver_cache_dir"
    ∷ "driver_auto_download" ∷ "chrome_for_testing_url" ∷ "headless" ∷ "startup_user_agent"
    ∷ "log_level" ∷ "log_html" ∷ "disable_media" ∷ "prometheus_enabled" ∷ "prometheus_port"
    ∷ "proxy" ∷ []

-- What stands at a path: nothing, what cannot be read or is not YAML, or a document.
pub data Document : Type 0 where
  absent : Document
  unreadable : Error → Document
  tree : Node → Document

unfoldable pub render_config_yaml : Document → ConfigFile → Node
unfolding merge_mapping mapping_node_of
render_config_yaml absent file = mapping (mapping_node_of file)
render_config_yaml (unreadable e) file = mapping (mapping_node_of file)
render_config_yaml (tree (scalar s)) file = mapping (mapping_node_of file)
render_config_yaml (tree other) file = mapping (mapping_node_of file)
render_config_yaml (tree (mapping old)) file =
    mapping (merge_mapping config_file_keys (mapping_node_of file) old)

abbrev pub read_decoded : Result ConfigFile → Read
read_decoded (ok file) = parsed file
read_decoded (err e) = unusable e

-- yaml.Unmarshal of a tree into a configFile is `decode`.
unfoldable pub read_document : (Node → Result ConfigFile) → Document → Read
read_document decode absent = missing
read_document decode (unreadable e) = unusable e
read_document decode (tree node) = read_decoded (decode node)

-- A document at one path.
abbrev pub placed : (String → Document) → String → Document → String → Document
placed documents path document p = if p == path then document else documents p
