-- ===== src/Detection/AuthorizedChannel.antt =====
-- internal/detection/authorized_channel.go
use vigia.Prelude.{String_comparable, contains, is_empty, if◌then◌else◌}
use vigia.Detection.{Detector, Outcome, Rationale}

-- The loop returns at the first entry that equals the channel.
unfoldable pub evaluate : Detector
evaluate i =
    if is_empty i.authorized_channels
    then record { outcome = Outcome.block; rationale = Rationale.channels_missing }
    else if contains i.authorized_channels i.channel
    then record { outcome = Outcome.pass; rationale = Rationale.channel_authorized i.channel }
    else record { outcome = Outcome.block; rationale = Rationale.channel_refused i.channel }
