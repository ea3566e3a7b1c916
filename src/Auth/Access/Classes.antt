-- ===== src/Auth/Access/Classes.antt =====
-- ops_device.go, ops_media.go and ops_event.go: the access class of each operation.
use onvif_simulator.Prelude.{String, [], ◌∷◌, none, some}
use onvif_simulator.Prelude.Dict.{Dict, lookup}
use onvif_simulator.Auth.Access.{
  AccessClass, pre_auth, read_system, read_system_sensitive, read_system_secret, write_system,
  unrecoverable, read_media, actuate,
}

unfoldable pub device_operation_classes : Dict AccessClass
device_operation_classes =
    ("GetEndpointReference", pre_auth)
    ∷ ("GetServices", pre_auth)
    ∷ ("GetServiceCapabilities", pre_auth)
    ∷ ("GetCapabilities", pre_auth)
    ∷ ("GetWsdlUrl", pre_auth)
    ∷ ("GetSystemDateAndTime", pre_auth)
    ∷ ("GetHostname", pre_auth)
    ∷ ("GetDeviceInformation", read_system)
    ∷ ("GetNetworkInterfaces", read_system)
    ∷ ("GetNetworkProtocols", read_system)
    ∷ ("GetNetworkDefaultGateway", read_system)
    ∷ ("GetDNS", read_system)
    ∷ ("GetNTP", read_system)
    ∷ ("GetScopes", read_system)
    ∷ ("GetDiscoveryMode", read_system)
    ∷ ("GetGeoLocation", read_system)
    ∷ ("GetUsers", read_system_sensitive)
    ∷ ("GetUserRoles", read_system_sensitive)
    ∷ ("GetAccessPolicy", read_system_sensitive)
    ∷ ("GetCertificates", read_system_sensitive)
    ∷ ("GetRemoteUser", read_system_sensitive)
    ∷ ("GetSystemLog", read_system_secret)
    ∷ ("GetSystemBackup", read_system_secret)
    ∷ ("GetSystemSupportInformation", read_system_secret)
    ∷ ("CreateUsers", write_system)
    ∷ ("DeleteUsers", write_system)
    ∷ ("SetUser", write_system)
    ∷ ("SetHostname", write_system)
    ∷ ("SetNetworkInterfaces", write_system)
    ∷ ("SetNetworkProtocols", write_system)
    ∷ ("SetNetworkDefaultGateway", write_system)
    ∷ ("SetDNS", write_system)
    ∷ ("SetNTP", write_system)
    ∷ ("SetScopes", write_system)
    ∷ ("AddScopes", write_system)
    ∷ ("RemoveScopes", write_system)
    ∷ ("SetDiscoveryMode", write_system)
    ∷ ("SetGeoLocation", write_system)
    ∷ ("SetAccessPolicy", write_system)
    ∷ ("SetRemoteUser", write_system)
    ∷ ("SetHashingAlgorithm", write_system)
    ∷ ("SetSystemFactoryDefault", unrecoverable)
    ∷ ("UpgradeFirmware", unrecoverable)
    ∷ ("StartFirmwareUpgrade", unrecoverable)
    ∷ ("StartSystemRestore", unrecoverable)
    ∷ ("RestoreSystem", unrecoverable)
    ∷ ("SystemReboot", unrecoverable)
    ∷ ("SendAuxiliaryCommand", actuate)
    ∷ ("SetRelayOutputState", actuate)
    ∷ []

unfoldable pub media_operation_classes : Dict AccessClass
media_operation_classes =
    ("GetServiceCapabilities", pre_auth)
    ∷ ("GetProfiles", read_media)
    ∷ ("GetProfile", read_media)
    ∷ ("GetVideoSources", read_media)
    ∷ ("GetVideoSourceConfigurations", read_media)
    ∷ ("GetVideoSourceConfiguration", read_media)
    ∷ ("GetVideoEncoderConfigurations", read_media)
    ∷ ("GetVideoEncoderConfiguration", read_media)
    ∷ ("GetCompatibleVideoSourceConfigurations", read_media)
    ∷ ("GetCompatibleVideoEncoderConfigurations", read_media)
    ∷ ("GetVideoSourceConfigurationOptions", read_media)
    ∷ ("GetVideoEncoderConfigurationOptions", read_media)
    ∷ ("GetStreamUri", read_media)
    ∷ ("GetSnapshotUri", read_media)
    ∷ ("GetGuaranteedNumberOfVideoEncoderInstances", read_media)
    ∷ ("GetMetadataConfigurations", read_media)
    ∷ ("GetMetadataConfiguration", read_media)
    ∷ ("GetCompatibleMetadataConfigurations", read_media)
    ∷ ("GetMetadataConfigurationOptions", read_media)
    ∷ ("CreateProfile", actuate)
    ∷ ("DeleteProfile", actuate)
    ∷ ("AddVideoSourceConfiguration", actuate)
    ∷ ("RemoveVideoSourceConfiguration", actuate)
    ∷ ("AddVideoEncoderConfiguration", actuate)
    ∷ ("RemoveVideoEncoderConfiguration", actuate)
    ∷ ("SetVideoSourceConfiguration", actuate)
    ∷ ("SetVideoEncoderConfiguration", actuate)
    ∷ ("AddMetadataConfiguration", actuate)
    ∷ ("RemoveMetadataConfiguration", actuate)
    ∷ ("SetMetadataConfiguration", actuate)
    ∷ []

unfoldable pub event_operation_classes : Dict AccessClass
event_operation_classes =
    ("GetServiceCapabilities", pre_auth)
    ∷ ("GetEventProperties", read_system)
    ∷ ("CreatePullPointSubscription", actuate)
    ∷ ("Subscribe", actuate)
    ∷ ("PullMessages", actuate)
    ∷ ("SetSynchronizationPoint", actuate)
    ∷ ("Renew", actuate)
    ∷ ("Unsubscribe", actuate)
    ∷ []

-- An operation that is not listed is for administrators.
unfoldable pub class_in : Dict AccessClass → String → AccessClass
unfolding lookup
class_in m op = elim (lookup op m) [ some c ↦ c | none ↦ write_system ]

unfoldable pub device_operation_class : String → AccessClass
unfolding class_in device_operation_classes
device_operation_class = class_in device_operation_classes

unfoldable pub media_operation_class : String → AccessClass
unfolding class_in media_operation_classes
media_operation_class = class_in media_operation_classes

unfoldable pub event_operation_class : String → AccessClass
unfolding class_in event_operation_classes
event_operation_class = class_in event_operation_classes
