-- ===== src/Rf/Device/Receive.antt =====
-- `tta_receive` over the radio transport, from the packet that the chip has received to the message.
use libtta.Core.Api
use libtta.Core.Api.{max_message_length}
use libtta.Rf.Radio.{Rf}
