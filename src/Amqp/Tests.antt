-- ===== src/Amqp/Tests.antt =====
-- The theorems on init_mq applied to a broker that accepts every declaration.
use svc_telemetry.Base.{◌≡◌, refl, true, [], some, ok}
use svc_telemetry.Base.Text.{codes}
use svc_telemetry.Amqp.{Broker, init_mq}
use svc_telemetry.Amqp.Topology.{IsUp, topology, init_mq-eq-ok, init_mq-IsUp}

abbrev broker : Broker
broker = record {
  url = some (codes "amqp://rabbitmq:5672");
  creates_pool = true;
  connects = true;
  creates_channel = true;
  accepts = λ h x. true;
}

broker-IsUp : IsUp broker
broker-IsUp = record {
  address = (codes "amqp://rabbitmq:5672", refl);
  pool = refl;
  connection = refl;
  channel = refl;
  acceptance = λ h x. refl;
}

init_mq-IsUp_example : init_mq broker [] ≡ (ok tt, topology [])
init_mq-IsUp_example = init_mq-IsUp broker [] broker-IsUp

all_accepted : init_mq broker [] ≡ (ok tt, topology [])
unfolding init_mq
all_accepted = refl

init_mq-eq-ok_example : topology [] ≡ topology []
init_mq-eq-ok_example = init_mq-eq-ok broker [] (topology []) all_accepted
