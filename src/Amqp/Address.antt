-- ===== src/Amqp/Address.antt =====
-- The names of queues and exchanges: core/amqp/amqp-management.service.ts, buildAddress of
-- core/amqp/amqp.service.ts, and the addresses of AbstractMessaging in core/amqp/example.ts.
use Prim.Native.String.{[], ◌∷◌}
use text.Mathlib.Text.{starts_with}
use text.Mathlib.TextLemmas.{append_cancel_left, append-nil}
use codebase_be_nestjs.Common.{
  ℕ, ◌*◌, String, ◌==◌, ◌≡◌, ◌↔◌, refl, sym, ap, ◌∙◌, Bool, true, false, Option, none, some, List,
  [], ◌∷◌, ◌++◌, if◌then◌else◌,
}
use codebase_be_nestjs.Common.Text.{◌<>◌}
use codebase_be_nestjs.Common.Effect.{Exec, Result, ok, err, error, pure, raise, ◌>>◌}

-- IAddress and IExchange, with the options that the source sets.
pub record QueueOptions : Type 0 where
  pub durable : Option Bool
  pub auto_delete : Bool
  pub expires : Option ℕ
  pub queue_version : Option ℕ

pub record Address : Type 0 where
  pub name : String
  pub options : Option QueueOptions

-- The properties of an exchange's options, by their names, are passed on.
pub record Exchange : Type 0 where
  pub name : String
  pub fanout : Bool
  pub options : Option (List (String × String))

-- What the channel is asked for, in order.
pub data Command : Type 0 where
  assert_queue : String → Option QueueOptions → Command
  assert_exchange : (name type : String) → Option (List (String × String)) → Command
  bind_queue : (queue exchange pattern : String) → Command

-- The names that the broker answers an assertion with.
pub record Broker : Type 0 where
  pub queue_of : String → String
  pub exchange_of : String → String

-- TEMPORARY_QUEUE_LIFETIME, in seconds
abbrev pub temporary_queue_lifetime : ℕ
temporary_queue_lifetime = 86400

abbrev pub command : Command → Exec (List Command) (Unit {0})
command c s = (ok tt, s ++ c ∷ [])

module _ (broker : Broker) where
  unfoldable pub assert_temporary_queue : String → ℕ → Exec (List Command) String
  assert_temporary_queue queue expire_seconds = do
    command (
        assert_queue queue (
          some (record {
            durable = some false;
            auto_delete = true;
            expires = some (expire_seconds * 1000);
            queue_version = some 2;
          })))
    pure (broker.queue_of queue)

  unfoldable pub assert_amqp_address : Address → Exchange → Exec (List Command) String
  assert_amqp_address address exchange = do
    command (assert_exchange exchange.name "topic" exchange.options)
    command (assert_queue ((exchange.name <> "_") <> address.name) address.options)
    command (
        bind_queue (broker.queue_of ((exchange.name <> "_") <> address.name))
          (broker.exchange_of exchange.name) (if exchange.fanout then "#" else address.name))
    pure ("/amq/queue/" <> ((exchange.name <> "_") <> address.name))

  -- `name[0] === "/" ? name : `/amq/queue/${name}``
  abbrev pub queue_address : String → String
  queue_address name = if starts_with name "/" then name else "/amq/queue/" <> name

  unfoldable pub build_address : Address → Bool → Option Exchange → Exec (List Command) String
  unfolding assert_amqp_address
  build_address address durable none = pure (queue_address address.name)
  build_address address durable (some exchange) =
      if starts_with address.name "/"
      then raise (error "Invalid AMQP address options")
      else assert_amqp_address
          (record {
            name = address.name;
            options = some (record {
              durable = some durable;
              auto_delete = false;
              expires = none;
              queue_version = none;
            });
          })
          exchange

-- IMessageRouting; both properties are optional.
pub record MessageRouting : Type 0 where
  pub fanout : Option String
  pub topic : Option String

-- A text that is there and not empty.
abbrev pub truthy : Option String → Option String
truthy none = none
truthy (some text) = if text == "" then none else some text

-- `(ROUTING.fanout || ROUTING.topic) as string`, in a concatenation
abbrev pub routing_name : MessageRouting → String
routing_name routing = elim (truthy routing.fanout) [
  | some name ↦ name
  | none ↦ elim routing.topic [ none ↦ "undefined" | some name ↦ name ]
]

abbrev pub is_fanout : MessageRouting → Bool
is_fanout routing = elim (truthy routing.fanout) [ none ↦ false | some _ ↦ true ]

-- workflowVariant, of the setting WORKFLOW_VARIANT
abbrev pub workflow_variant : Option String → String
workflow_variant setting = elim (truthy setting) [ none ↦ "" | some variant ↦ "-" <> variant ]

-- LISTEN_TO_ADDRESS
unfoldable pub listen_to_address :
    Option MessageRouting → String → Option String → Address × Option Exchange
listen_to_address none address setting = (record { name = address; options = none }, none)
listen_to_address (some routing) address setting = (
  record { name = routing_name routing <> workflow_variant setting; options = none },
  some (record { name = address; fanout = is_fanout routing; options = none }),
)

abbrev pub exchange_address : String → String → String
exchange_address exchange key = ("/exchange/" <> exchange) <> ("/" <> key)

abbrev pub topic_address : String → Option String → Result String
topic_address address none = err (error "FATAL error invalid address")
topic_address address (some topic) = ok (exchange_address address topic)

abbrev pub partition_of : String → Option String → Option String → Result String
partition_of address none topic = topic_address address topic
partition_of address (some fanout) topic = ok (exchange_address address "*")

abbrev pub partition_address : String → MessageRouting → Result String
partition_address address routing =
    partition_of address (truthy routing.fanout) (truthy routing.topic)

-- getPublishAddress
unfoldable pub get_publish_address :
    Option MessageRouting → String → (global : Bool) → Result String
get_publish_address routing address true = ok (exchange_address address "*")
get_publish_address none address false = ok ("/amq/queue/" <> address)
get_publish_address (some routing) address false = partition_address address routing

-- The address that enqueue sends to: `${options.address}${this.workflowVariant}`.
unfoldable pub enqueue_address :
    Option MessageRouting → Option String → Option String → (global : Bool) → Result String
unfolding get_publish_address
enqueue_address routing address setting global =
    get_publish_address routing
      ((elim address [ none ↦ "undefined" | some text ↦ text ]) <> workflow_variant setting) global

-- The exchange and the pattern that a listener's queue is bound to.
abbrev pub binding_of : Broker → Option MessageRouting → String → Option String → List Command
binding_of broker routing address setting =
    let (listened, exchange) = listen_to_address routing address setting in
    (build_address broker listened true exchange []).1

abbrev pub topic_routing : String → MessageRouting
topic_routing topic = record { fanout = none; topic = some topic }

abbrev pub durable_queue : Option QueueOptions
durable_queue =
    some (record { durable = some true; auto_delete = false; expires = none; queue_version = none })

truthy-named : (text : String) → (text == "") ≡ false → truthy (some text) ≡ some text
truthy-named text h = rw h refl

append_neutral : (s v : String) → (s <> v ≡ s) ↔ (v ≡ "")
append_neutral s v =
    ((λ h. append_cancel_left s v "" (h ∙ sym (append-nil s))), (λ h. rw h (append-nil s)))

module _ (broker : Broker) where
  -- For a workflow with a topic that is not empty and whose pattern does not begin with a slash:
  -- enqueuing sends to the exchange of the address with the workflow variant, with the topic for a
  -- key, while the listener's queue is bound to the exchange of the address alone for the topic
  -- with the variant. The two exchanges, and the key and the pattern, are the same exactly if
  -- there is no variant.
  pub enqueue-bound :
      (topic address : String) (setting : Option String)
      → (topic == "") ≡ false
      → starts_with (topic <> workflow_variant setting) "/" ≡ false
      → (enqueue_address (some (topic_routing topic)) (some address) setting false
          ≡ ok (exchange_address (address <> workflow_variant setting) topic))
        × (binding_of broker (some (topic_routing topic)) address setting
            ≡ assert_exchange address "topic" none
              ∷ assert_queue ((address <> "_") <> (topic <> workflow_variant setting)) durable_queue
              ∷ bind_queue
                  (broker.queue_of ((address <> "_") <> (topic <> workflow_variant setting)))
                  (broker.exchange_of address)
                  (topic <> workflow_variant setting)
              ∷ [])
        × ((address <> workflow_variant setting ≡ address) ↔ (workflow_variant setting ≡ ""))
        × ((topic <> workflow_variant setting ≡ topic) ↔ (workflow_variant setting ≡ ""))
  unfolding enqueue_address listen_to_address build_address
  enqueue-bound topic address setting named plain = (
    ap (topic_address (address <> workflow_variant setting)) (truthy-named topic named),
    rw (binding_of, plain) refl,
    append_neutral address (workflow_variant setting),
    append_neutral topic (workflow_variant setting),
  )
