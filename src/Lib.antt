-- ===== src/Lib.antt =====
-- A verification library for the ONVIF simulator, a program in Go that plays an ONVIF camera: it
-- answers the Device, Media and Event services over HTTP, publishes events to subscribers, guards
-- its operations by user levels and keeps its configuration in a JSON file.
--
-- The parts that are modelled, and where:
-- * Event is internal/event. Event/Subscription is subscription.go: the record of a subscription
--   with its queue of 256 messages (enqueue, drain, matches_topic). Event/Duration is util.go: the
--   durations and times that requests carry. Event/Broker is the state of broker.go and notifier.go
--   with New, UpdateConfig, Publish, recordNotifyResult and reapLocked; Event/Broker/Requests has
--   the requests of a subscriber; Event/Broker/Step makes each call a step and runs a history. The
--   files below them prove what these keep and do.
-- * Config is internal/config. Config/Types holds the records of config.go, Config/Validate its
--   `Validate` with every check in its order, Config/Update the helpers of update.go as changes of
--   the configuration in memory, and Config/Store what they do to the file and to the temporary files
--   beside it: Load, Save, Update and EnsureExists.
-- * Auth is internal/auth. Auth/Access is access.go with the tables of ops_device.go, ops_media.go
--   and ops_event.go; Auth/NonceCache is nonce_cache.go; Auth/UserStore is store.go and
--   controller.go, the live users and how they follow the file; Auth/UsernameToken is
--   username_token.go from the token that was read on; Auth/Chain is the chain of auth.go with the
--   hooks of adapter.go and internal/simulator/auth.go, over authenticators that keep a state.
-- * Discovery is internal/onvif/wsdiscovery/match.go: whether the device answers a Probe or a
--   Resolve.
-- * Simulator is internal/simulator, which joins the others: brokerConfigFromConfig of simulator.go,
--   Simulator/Ring (ring.go), Simulator/AuthChain (what rebuildAuthChain of auth.go builds, with the
--   constructors of digest.go and jwt.go), Simulator/State (New and reloadFromDisk of simulator.go),
--   Simulator/Mutators (mutators.go), Simulator/Triggers (triggers.go and internal/event/messages.go),
--   Simulator/Profiles (profile_derive.go and the tokens of media_provider.go),
--   Simulator/Device (device_provider.go, behind the Device service), Simulator/Media
--   (media_provider.go, behind the Media service) and
--   Simulator/Lifecycle (Start and Stop of lifecycle.go, with the listener, the RTSP server and the
--   discovery loop that they open and close; Simulator/Lifecycle/Sources is what a start registers
--   with the RTSP server). A simulator is a record of the file, the live configuration,
--   the broker, the users, the chain and the ring; each call takes the faults of its system calls.
-- Prelude and Text carry what the parts share: Go's `int` (ℤ), maps as association lists (Dict),
-- texts compared as a whole or as lists of code points.
--
-- How the code became definitions:
-- * A method that holds a mutex from its start to its end is a function from the state before to the
--   state after and the result; a sequence of calls is a list of steps. Two goroutines can only
--   interleave whole calls. Of the configuration only Update takes the lock; Save and EnsureExists are
--   whole steps here as well. A mutator of the simulator takes several locks in turn, and Start and
--   Stop give theirs up while they work: here each is one step, so only their sequences are covered.
-- * Times are nanoseconds on a clock that does not run backwards below zero, as natural numbers; a
--   duration is a signed integer. The multiplications of a parsed duration wrap around at 64 bits.
-- * Go leaves the order of iteration over a map open. Here it is the order of the list.
-- * Clock readings, random identifiers, the outcome of a Notify over HTTP and the outcome of each
--   call of the operating system are inputs.
-- * Go's library is a parameter: time.ParseDuration and time.Parse, url.Parse and url.QueryEscape,
--   net.ParseMAC and net.ParseCIDR, encoding/json, strings.EqualFold, encoding/base64 with crypto/sha1,
--   encoding/pem with crypto/x509, html.EscapeString and the printing of numbers and times. The
--   theorems on the file assume of JSON only that it reads back what it wrote, and the one on new
--   tokens that different numbers print differently.
-- * Loops are structural recursion on the list or the text that they run along, so no fuel is
--   needed. The one exception counts up for a free profile token: its fuel is the number of profiles
--   and one more, which is proved to be enough. The limits are the source's: 256 messages, 4096
--   nonces, ports up to 65535, a ring of 16 to 1024 events.
-- * Texts that wrap an error and log lines are left out; an error is its sentinel.
--
-- Not modelled: the SOAP envelopes and handlers of the services, how Digest and JWT check a request, how a UsernameToken is read off
-- its envelope, the messages of WS-Discovery with their transport and loop, the streaming of
-- internal/rtsp, the subprocesses of internal/ffmpeg and internal/rpicamera, the logger and the user
-- interfaces.
pub mod Auth
pub mod Config
pub mod Discovery
pub mod Event
pub mod Prelude
pub mod Simulator
pub mod Text
