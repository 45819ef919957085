-- ===== src/Lib.antt =====
-- ibdm exports data from external systems to the Mia-Platform Catalog. A source
-- (internal/source) emits pieces of data on a channel; the pipeline (internal/pipeline) renders each
-- with the mapper of its type (internal/mapper, configured by internal/config) and hands the items to
-- a destination (internal/destination). The command line (internal/cmd, main.go) and the HTTP server
-- (internal/server) put these together.
--
-- The files and what they model:
--   Base, Regex, Value   names that all modules share; the regular expressions of Go that the code
--                        uses; `any` and `map[string]any`
--   Config               internal/config/mappings.go: validateExtra and NewMappingConfigsFromPath
--   Mapper.Functions     internal/mapper/functions: the helpers that a mapping template calls
--   Mapper.Identifier    executeIdentifierTemplate of internal/mapper/mapper.go
--   Mapper.Apply         ApplyTemplates and ApplyIdentifierTemplate of the same file
--   Mapper.Compile       New of the same file
--   Source, Destination  internal/source/data.go and internal/destination/interface.go
--   Pipeline             internal/pipeline/pipeline.go: mappingData and what it calls
--   Pipeline.Channel     runDataPipeline, as steps of its goroutines
--   Pipeline.Entry       Start, Sync and Stop
--   Effect, Http         what the sources share of Go: a function that acts outside, with the rules by
--                        which it ends and keeps what it should; requests, answers, the channel
--   Github               internal/source/github: config.go and client.go
--   Github.Iterator      iterator.go
--   Github.Sync          github.go
--   Github.Processors    processor.go and processor_*.go
--   Github.Webhook       webhook.go
--   Gitlab, Bitbucket, Nexus
--                        internal/source/gitlab, bitbucket and nexus: settings and client, in Sync the
--                        synchronisation, in Processors the events and in Webhook the webhook
--   Sysdig               internal/source/sysdig: settings, the pages of SysQL, the synchronisation; in
--                        Sysdig.Events vulnerabilityclient.go, processor_vulnerabilityevent.go and
--                        webhook.go
--   Console              internal/source/console: env.go and the maps of console.go; in Console.Service
--                        the package service, in Console.Sync the synchronisation with its lock, in
--                        Console.Webhook event.go and the webhook
--   Devops               internal/source/azure-devops: config.go, client.go, sync.go and the sync of
--                        devops.go; in Devops.Webhook its webhook
--   Catalog              internal/destination/catalog: catalog.go and transport.go; Catalog.Auth holds
--                        the settings and their validation
--   Oauth                internal/tokensource/oauth2source/oauth2source.go: the token endpoint, and in
--                        Oauth.Exchange the token
--   Server               internal/server: env.go, the answers of server.go, statusroutes.go
--   Command              internal/cmd: the choice of a source and the loading of mappings; the names
--                        of levels of internal/logger
-- Below each component, Laws and the other child modules hold its theorems, and Tests its runs at
-- concrete inputs; Http.Sample has the server of those runs. Pipeline.Plan is an independent account of
-- what one piece of data asks of a destination, and Pipeline.Trace relates the loop to it.
--
-- State and effects. A function that acts outside takes a world `W` and returns it: the destination of
-- a pipeline, the server behind an HTTP client, the clock, the channel of results. The sources other
-- than GitHub are written with `Effect`, which gives the result and the world, or nothing when the fuel
-- is out. In Console nothing runs on fuel, and an effect without a result is a panic: an assertion of a
-- type that the code does not check. `Ended I Fails Gives` says of an effect that it gives a result,
-- whose error or value is as said, and that the world satisfies `I` then. A template acts on a state of
-- its own, since the helper `set` writes into the data. Errors are `Err`, and what can fail returns
-- `Result`, or `Option Err` where the code returns only an error. Logging is left out: it returns
-- nothing to the code. The text of an error keeps what names the failure, not all that is printed.
--
-- Texts are `String`s (Go strings that hold valid UTF-8), except where the code cuts at byte
-- positions. A Go map is an association list or `Fields`; the code never relies on the order of its
-- keys.
--
-- Parameters stand for what is not in the repository: text/template and gopkg.in/yaml.v3, net/http and
-- net/url, encoding/json, HMAC, SHA-256, base64
-- and hexadecimal decoding, the folding of letters, floating point, the OAuth2 clients and
-- github.com/caarlos0/env. They are arguments or the fields of the records
-- `Env`, `Web`, `Signing`, `Folding` and `Texts`, and no theorem assumes more of them than it says.
--
-- Bounds. Most loops are over finite lists. The loops over pages have no bound in the code: they run on
-- fuel and are `none` without it. For GitHub and GitLab the fuel of a listing whose last page is `last`
-- is `last + 2`. Bitbucket follows links, Nexus and Azure DevOps tokens and Sysdig offsets, and the fuel
-- comes from a rank of these that goes down from page to page: `last + 2` for links, `last + 1` for
-- tokens, one more than the rank of 0 for offsets. The theorems take that of the server; without it the
-- code itself may ask for ever. The steps of Pipeline.Channel need no fuel. Go's `int` is ℕ or ℤ: page
-- counters, offsets and page sizes stay far below its bounds, and strconv.Atoi clamps at them.
--
-- Not modelled: the Azure and Google Cloud sources, which are mostly calls of their SDKs; the Close of a
-- source, which cancels a context; cobra commands, directory walks, the listening of the server and
-- logging, which are glue; the writer and fake destinations; internal/jwk, which is mostly calls of a
-- library. The offset of Sysdig has no bound.
pub mod Base
pub mod Regex
pub mod Value
pub mod Config
pub mod Mapper
pub mod Source
pub mod Destination
pub mod Pipeline
pub mod Effect
pub mod Http
pub mod Github
pub mod Gitlab
pub mod Bitbucket
pub mod Nexus
pub mod Sysdig
pub mod Console
pub mod Devops
pub mod Catalog
pub mod Oauth
pub mod Server
pub mod Command
