-- ===== src/Addresses.antt =====
-- The addresses of src/addresses.rs, and those of the Sanctum swaps that src/config.rs parses from
-- base 58. A key is the number that its 32 bytes spell, first byte highest.
use engine_mev.Base.{ℕ, List, [], ◌∷◌, ◌==◌, if◌then◌else◌}
use engine_mev.Pool.{Pubkey}

abbrev pub spl_token : Pubkey
spl_token = 0x06ddf6e1d765a193d9cbe146ceeb79ac1cb485ed5f5b37913a8cf5857eff00a9

abbrev pub token_2022 : Pubkey
token_2022 = 0x06ddf6e1ee758fde18425dbce46ccddab61afc4d83b90d27febdf928d8a18bfc

abbrev pub ata_program : Pubkey
ata_program = 0x8c97258f4e2489f1bb3d1029148e0d830b5a1399daff1084048e7bd8dbe9f859

abbrev pub compute_budget : Pubkey
compute_budget = 0x0306466fe5211732ffecadba72c39be7bc8ce5bbc5f7126b2c439b3a40000000

abbrev pub memo : Pubkey
memo = 0x054a535a992921064d24e87160da387c7c35b5ddbc92bb81e41fa8404105448d

abbrev pub wsol : Pubkey
wsol = 0x069b8857feab8184fb687f634618c035dac439dc1aeb3b5598a0f00000000001

abbrev pub raydium_amm : Pubkey
raydium_amm = 0x4bd949c43602c33f207790ed16a3524ca1b9975cf121a2a90cffec7df8b68acd

abbrev pub raydium_clmm : Pubkey
raydium_clmm = 0xa5d5ca9e04cf5db590b714ba2fe32cb159133fc1c192b72257fd07d39cb0401e

abbrev pub raydium_cp : Pubkey
raydium_cp = 0xa92a5a8b4f295952842550aa93fd5b95b5ace6a8eb920c93942e43690c20ec73

abbrev pub orca_whirlpool : Pubkey
orca_whirlpool = 0x0e03685f8e909053e458121c66f5a76aedc7706aa11c82f8aa952a8f2b7879a9

abbrev pub meteora_dlmm : Pubkey
meteora_dlmm = 0x04e9e12fbc84e826c932cce9e2640cce15590c1c6273b0925708ba3b8520b0bc

abbrev pub meteora_damm_v2 : Pubkey
meteora_damm_v2 = 0x092d2135657a159c2b87d4b66a70db8e9752389ff76aaf206ced063a38f95aed

abbrev pub sanctum_s_controller : Pubkey
sanctum_s_controller = 0x475fed1dc0fff39bbf237b19aa9747fb56d4b0ddf233a21343c942d64e1883dd

abbrev pub sanctum_pricing : Pubkey
sanctum_pricing = 0x0ccfb4806f15a3cf92c25bf54ca7c5d2100ccbc3c1c696d6f413a04477c362fe

abbrev pub phoenix_v1 : Pubkey
phoenix_v1 = 0x05d0ea4f33737013a563e09348edb6f4593d91fc7641f9247c2441a842a1bbeb

abbrev pub manifest : Pubkey
manifest = 0x0537a47738da25a988f964d99ba43a88cf1187395b6acf1483f570228d8002b2

abbrev pub pumpswap : Pubkey
pumpswap = 0x0c14defc825ec67694250818bb654065f4298d3156d571b4d4f8090c18e9a863

abbrev pub pumpswap_global_config : Pubkey
pumpswap_global_config = 0x890ba644fe1f55aa19f11cd2d2ec14d3233b6e0a4beaeef72b69858e21e170d6

abbrev pub pumpswap_event_authority : Pubkey
pumpswap_event_authority = 0xe54a709528839f61c0b9b86079891c139216e47a71b62fb73bec72169458745e

abbrev pub pumpswap_fee_config : Pubkey
pumpswap_fee_config = 0x41246ecc7d78fe81e41773a46965419937923a07644797df6f3eb514426010cb

abbrev pub pumpswap_fee_program : Pubkey
pumpswap_fee_program = 0x0c35ffa9055a8e568da8f7bc075615274cf1c92ca41f40009c516aa414c27c70

abbrev pub pumpswap_global_volume_accumulator : Pubkey
pumpswap_global_volume_accumulator =
    0xa3d7bb127e58adc12ca68f83437ec2e1c3f9820de93e58f9178a2918ddaaf7b4

abbrev pub pumpswap_fee_recipient_1 : Pubkey
pumpswap_fee_recipient_1 = 0xd7aa8fb060d8291b4c4d475daff762c96bdc0daceb36c012ead12ed3a9484161

abbrev pub jitosol_mint : Pubkey
jitosol_mint = 0xfcd141e9832caf10ad917495ca0f271b5b293cd47027ea737007ed40eb39a0bd

abbrev pub msol_mint : Pubkey
msol_mint = 0x0b62ba074f722c9d4114f2d8f70a00c66002337b9bf90c873657a6d201db4c80

abbrev pub bsol_mint : Pubkey
bsol_mint = 0x08d2e970f93c7b3d50191e611acd93aa80a546b45ec965e18b0587155699c8ac

abbrev pub sol_mint : Pubkey
sol_mint = 0x069b8857feab8184fb687f634618c035dac439dc1aeb3b5598a0f00000000001

abbrev pub spl_stake_pool_calc : Pubkey
spl_stake_pool_calc = 0x0d0431658e93ff6a9c18f206945367a41a80b6ecba11510732d032f0a61e6f96

abbrev pub marinade_calc : Pubkey
marinade_calc = 0x0b6bd62611343aa3708875b36d52c6aab13df22f73fa11bb7c52acc6562dc5ca

abbrev pub wsol_calculator : Pubkey
wsol_calculator = 0x0e0ecd0a3dcc2da0135c15ed0afb8398e0d593ed8ec6bea9c14bcacf2e6092ad

abbrev pub spl_calc_state : Pubkey
spl_calc_state = 0x6526936fc3b73a70158112e44639369f6044ea16c6aa0639f6dae5f72983d76c

abbrev pub spl_stake_pool_program : Pubkey
spl_stake_pool_program = 0x06814ed4caf68a174672fdac86031a63e84ea15efa1d44b72293f6dbdb001650

abbrev pub spl_stake_pool_prog_data : Pubkey
spl_stake_pool_prog_data = 0xcc9c5f8de7e1209298aba6f30a68ee2f9b9c1c2dfdd3c97b52465cfe8d4a634a

abbrev pub jito_stake_pool : Pubkey
jito_stake_pool = 0x048a3e08c3b495be17f45427d89bec5b80c7e2695c1864d76743db39bed346d6

abbrev pub blaze_stake_pool : Pubkey
blaze_stake_pool = 0x0d098c2006d3c553bb88409f163855e68f21313886d11639f7b8878141d24701

abbrev pub marinade_calc_state : Pubkey
marinade_calc_state = 0xd54a37bd5c01b8ab9ed6a3904451fb95551ae00a53643643b63207e21d0f674f

abbrev pub marinade_state : Pubkey
marinade_state = 0x75119b3175807586e3f4a7e5cd0f890e96a753b10fccc7681e9473a0083270f1

abbrev pub marinade_program : Pubkey
marinade_program = 0x0545e365bef271ad75350367565da40da336dc1c879bb1548a7afcc55aa9391e

abbrev pub marinade_prog_data : Pubkey
marinade_prog_data = 0x325028d875bd32eff1b091c63ddb1b8e5ea45ea8100c102c81868f414eaf193e

abbrev pub sanctum_pricing_state : Pubkey
sanctum_pricing_state = 0x3345d4c473d27a48c4a12292d91ea70b2bf5fae0f819614168bdffe44718a396

-- The calculator of a mint, the accounts that follow it, and how many they are together.
unfoldable pub sanctum_calculator_accounts : Pubkey → Pubkey × List Pubkey × ℕ
sanctum_calculator_accounts mint =
    if mint == sol_mint
    then (wsol_calculator, [], 1)
    else if mint == jitosol_mint
    then (
      spl_stake_pool_calc,
      spl_calc_state ∷ jito_stake_pool ∷ spl_stake_pool_program ∷ spl_stake_pool_prog_data ∷ [],
      5,
    )
    else if mint == bsol_mint
    then (
      spl_stake_pool_calc,
      spl_calc_state ∷ blaze_stake_pool ∷ spl_stake_pool_program ∷ spl_stake_pool_prog_data ∷ [],
      5,
    )
    else if mint == msol_mint
    then (
      marinade_calc,
      marinade_calc_state ∷ marinade_state ∷ marinade_program ∷ marinade_prog_data ∷ [],
      5,
    )
    else (wsol_calculator, [], 1)
